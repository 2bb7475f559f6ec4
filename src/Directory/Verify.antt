-- ===== src/Directory/Verify.antt =====
-- directory/src/verify.rs. Argon2id, the HTTP client and the environment are parameters; an error's
-- text is not kept.
use rosette.Prelude.{
  ℕ, ◌+◌, ◌/◌, ◌%◌, List, [], ◌∷◌, Bool, true, false, ◌&&◌, ◌||◌, not, Option, none, some, leb, ltb,
  ◌==◌, if◌then◌else◌, ◌⊎◌, inl, inr,
}
use rosette.Prelude.Text.{Text, text_eq}
use rosette.Directory.Username.{byte_len}

pub data VerifyError : Type 0 where
  invalid_phone_format code_rejected vendor_unavailable hash vendor : VerifyError

pub data VendorError : Type 0 where
  unavailable other : VendorError

abbrev is_ascii_digit : ℕ → Bool
is_ascii_digit c = leb b'0' c && leb c b'9'

unfoldable pub all_digits : Text → Bool
all_digits [] = true
all_digits (c ∷ cs) = is_ascii_digit c && all_digits cs

-- `strip_prefix('+')`, then 8 to 15 bytes, which are digits
unfoldable pub normalize_e164 : Text → VerifyError ⊎ Text
unfolding all_digits
normalize_e164 [] = inl invalid_phone_format
normalize_e164 (c ∷ digits) =
    if c == b'+'
    then (if not (leb 8 (byte_len digits) && leb (byte_len digits) 15) || not (all_digits digits)
        then inl invalid_phone_format
        else inr (b'+' ∷ digits))
    else inl invalid_phone_format

abbrev hex_digit : ℕ → ℕ
hex_digit n = if ltb n 10 then b'0' + n else 87 + n

-- `{b:02x}` for every byte
unfoldable pub lower_hex : List ℕ → Text
lower_hex [] = []
lower_hex (b ∷ bytes) = hex_digit (b / 16) ∷ hex_digit (b % 16) ∷ lower_hex bytes

-- Argon2id: the secret and the password; `none` is its error. The salt and the costs are constants.
abbrev pub Argon2 : Type 0
Argon2 = List ℕ → Text → Option (List ℕ)

unfoldable pub phone_hash : Argon2 → Text → List ℕ → VerifyError ⊎ Text
unfolding lower_hex
phone_hash argon2id e164 pepper = elim (argon2id pepper e164) [
  | none ↦ inl hash
  | some out ↦ inr (lower_hex out)
]

-- 5xx and 429
unfoldable pub classify_status : ℕ → VendorError
classify_status status =
    if (leb 500 status && ltb status 600) || status == 429 then unavailable else other

unfoldable pub classify_transport : Bool → Bool → VendorError
classify_transport is_timeout is_connect = if is_timeout || is_connect then unavailable else other

unfoldable pub classify_check_failure : ℕ → VendorError ⊎ Bool
unfolding classify_status
classify_check_failure status = if status == 404 then inr false else inl (classify_status status)

-- The trait `OtpVendor`
pub record OtpVendor : Type 0 where
  pub send_code : Text → VendorError ⊎ Unit {0}
  pub verify : Text → Text → VendorError ⊎ Bool

abbrev pub dev_otp_code : Text
dev_otp_code = b'0' ∷ b'0' ∷ b'0' ∷ b'0' ∷ b'0' ∷ b'0' ∷ []

unfoldable pub dev_otp_vendor : OtpVendor
dev_otp_vendor = record {
  send_code = λ e164. inr tt;
  verify = λ e164 code. inr (text_eq code dev_otp_code);
}

-- What `send()` returns: no response, with the kind of error, or a status with its body. A body that
-- is not JSON is `none`, and one without a string as its `status` is `some none`.
pub data Sent : Type 0 where
  failed : Bool → Bool → Sent
  answered : ℕ → Option (Option Text) → Sent

-- `post` of the client to either of the two URLs: the service's id, the account, the number and what
-- is sent with it.
pub data Endpoint : Type 0 where
  verifications verification_check : Endpoint

pub record TwilioOtpVendor : Type 0 where
  pub account_sid : Text
  pub auth_token : Text
  pub verify_service_sid : Text

abbrev pub Client : Type 0
Client = Endpoint → TwilioOtpVendor → Text → Text → Sent

abbrev pub is_success : ℕ → Bool
is_success status = leb 200 status && ltb status 300

abbrev approved : Text
approved = b'a' ∷ b'p' ∷ b'p' ∷ b'r' ∷ b'o' ∷ b'v' ∷ b'e' ∷ b'd' ∷ []

unfoldable pub verification_approved : Option Text → Bool
verification_approved none = false
verification_approved (some status) = text_eq status approved

abbrev parsed : Option (Option Text) → VendorError ⊎ Bool
parsed none = inl other
parsed (some status) = inr (verification_approved status)

abbrev sms : Text
sms = b's' ∷ b'm' ∷ b's' ∷ []

unfoldable pub start_verification : Sent → VendorError ⊎ Unit {0}
unfolding classify_status classify_transport
start_verification (failed is_timeout is_connect) = inl (classify_transport is_timeout is_connect)
start_verification (answered status body) =
    if is_success status then inr tt else inl (classify_status status)

unfoldable pub check_verification : Sent → VendorError ⊎ Bool
unfolding classify_check_failure classify_transport verification_approved
check_verification (failed is_timeout is_connect) = inl (classify_transport is_timeout is_connect)
check_verification (answered status body) =
    if is_success status then parsed body else classify_check_failure status

unfoldable pub twilio_otp_vendor : Client → TwilioOtpVendor → OtpVendor
unfolding start_verification check_verification
twilio_otp_vendor send account = record {
  send_code = λ e164. start_verification (send verifications account e164 sms);
  verify = λ e164 code. check_verification (send verification_check account e164 code);
}

-- The variables of `vendor_from_env`; `none` stops the process at its start.
pub record VendorEnv : Type 0 where
  pub twilio_account_sid : Option Text
  pub twilio_auth_token : Option Text
  pub twilio_verify_service_sid : Option Text
  pub allow_dev_otp_vendor : Option Text

abbrev dev_or_none : Option Text → Option OtpVendor
dev_or_none none = none
dev_or_none (some _) = some dev_otp_vendor

unfoldable pub vendor_from_env : Client → VendorEnv → Option OtpVendor
unfolding twilio_otp_vendor dev_otp_vendor
vendor_from_env send env = elim env.twilio_account_sid [
  | none ↦ dev_or_none env.allow_dev_otp_vendor
  | some sid ↦ elim env.twilio_auth_token [
    | none ↦ dev_or_none env.allow_dev_otp_vendor
    | some token ↦ elim env.twilio_verify_service_sid [
      | none ↦ dev_or_none env.allow_dev_otp_vendor
      | some service ↦ some (
          twilio_otp_vendor send
            (record { account_sid = sid; auth_token = token; verify_service_sid = service }))
    ]
  ]
]

-- What follows the vendor's answer.
abbrev pub after_check : VendorError ⊎ Bool → VerifyError ⊎ Text → VerifyError ⊎ Text
after_check (inr true) hashed = hashed
after_check (inr false) hashed = inl code_rejected
after_check (inl unavailable) hashed = inl vendor_unavailable
after_check (inl other) hashed = inl vendor

unfoldable pub verify_phone : Argon2 → OtpVendor → Text → Text → List ℕ → VerifyError ⊎ Text
unfolding normalize_e164 phone_hash
verify_phone argon2id otp raw_phone code pepper = elim (normalize_e164 raw_phone) [
  | inl e ↦ inl e
  | inr e164 ↦ after_check (otp.verify e164 code) (phone_hash argon2id e164 pepper)
]
