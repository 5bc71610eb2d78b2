-- ===== src/Types/Error.antt =====
-- types/error.rs: S3 errors and what a client is told of them; and the outcome of a Rust call.
use replica_t.Common.{ℕ, Text, text, ◌++◌, ◌≡◌, ◌≢◌, refl}

pub data S3Error : Type 0 where
  no_such_key : S3Error
  no_such_bucket : S3Error
  invalid_request : Text → S3Error
  access_denied : S3Error
  signature_does_not_match : S3Error
  internal_error : Text → S3Error

unfoldable pub status_code : S3Error → ℕ
status_code no_such_key = 404
status_code no_such_bucket = 404
status_code (invalid_request msg) = 400
status_code access_denied = 403
status_code signature_does_not_match = 403
status_code (internal_error msg) = 500

unfoldable pub error_code : S3Error → Text
error_code no_such_key = text "NoSuchKey"
error_code no_such_bucket = text "NoSuchBucket"
error_code (invalid_request msg) = text "InvalidRequest"
error_code access_denied = text "AccessDenied"
error_code signature_does_not_match = text "SignatureDoesNotMatch"
error_code (internal_error msg) = text "InternalError"

unfoldable pub message : S3Error → Text
message no_such_key = text "The specified key does not exist."
message no_such_bucket = text "The specified bucket does not exist."
message (invalid_request msg) = msg
message access_denied = text "Access Denied"
message signature_does_not_match =
    text "The request signature we calculated does not match the signature you provided."
message (internal_error msg) = text "Internal Error: " ++ msg

-- `Display`, which the log lines and the wrapping errors print.
unfoldable pub display : S3Error → Text
display e = error_code e ++ text ": " ++ message e

-- A call returns `Ok`, returns `Err`, or unwinds: an index out of bounds, an `unwrap` of `None`.
pub data Result {ℓ} (A : Type ℓ) : Type ℓ where
  ok : A → Result A
  err : S3Error → Result A
  panic : Result A

infixl 5 ◌>>=◌ ◌>>◌
-- `?`: an error returns from the function, and a panic unwinds through it.
abbrev pub ◌>>=◌ {ℓ κ} : {A : Type ℓ} {B : Type κ} → Result A → (A → Result B) → Result B
ok a >>= f = f a
err e >>= f = err e
panic >>= f = panic

abbrev pub ◌>>◌ {ℓ κ} : {A : Type ℓ} {B : Type κ} → Result A → Result B → Result B
m >> k = m >>= λ _. k

abbrev pub map_result {ℓ κ} : {A : Type ℓ} {B : Type κ} → (A → B) → Result A → Result B
map_result f (ok a) = ok (f a)
map_result f (err e) = err e
map_result f panic = panic

-- A function that does not panic panics on no outcome but a panic.
pub bind-ne-panic {ℓ κ} :
    {A : Type ℓ} {B : Type κ} (r : Result A) (f : A → Result B)
    → r ≢ panic
    → ((a : A) → f a ≢ panic)
    → (r >>= f) ≢ panic
bind-ne-panic (ok a) f calm each h = each a h
bind-ne-panic (err e) f calm each h = cc
bind-ne-panic panic f calm each h = calm refl

-- What returned `ok` had its first part return `ok`.
pub bind-eq-ok {ℓ κ} :
    {A : Type ℓ} {B : Type κ} (r : Result A) (f : A → Result B) {b : B}
    → (r >>= f) ≡ ok b
    → (a : A) × (r ≡ ok a) × (f a ≡ ok b)
bind-eq-ok (ok a) f h = (a, refl, h)
bind-eq-ok (err e) f h = cc
bind-eq-ok panic f h = cc

-- What a third-party call returns: a value, or an error of which the source prints the text.
pub data Tried {ℓ} (A : Type ℓ) : Type ℓ where
  returned : A → Tried A
  failed : Text → Tried A

abbrev pub map_err {ℓ} : {A : Type ℓ} → (Text → S3Error) → Tried A → Result A
map_err f (returned a) = ok a
map_err f (failed e) = err (f e)

pub map_err-ne-panic {ℓ} : {A : Type ℓ} (f : Text → S3Error) (r : Tried A) → map_err f r ≢ panic
map_err-ne-panic f (returned a) h = cc
map_err-ne-panic f (failed e) h = cc
