-- ===== src/Secrets/Client.antt =====
-- The calls of the setec client (crates/setec/src/lib.rs). The connection is outside: how a request
-- ends is an input. The readers of JSON and base64 are a parameter.
use cja.Common.{
  ℕ, ◌≡◌, refl, sym, inl, inr, Option, none, some, Bool, true, false, not, ◌&&◌, ◌==◌, ltb, leb,
  List, if◌then◌else◌, Bool-cases, arith,
}
use cja.Common.Sql.{Result, ok, err}
use cja.Secrets.{
  SetecError, not_found, access_denied, version_claimed, invalid_request, transport, invalid_url,
  decode, server, is_retryable, SecretValue,
}

-- How a request ends: no connection or no answer in time, a URL that cannot be used, a body that
-- cannot be written, or a status with the bytes of the answer.
pub data Wire : Type 0 where
  unreachable timed_out unusable_url unwritable_body : Wire
  replied : ℕ → List ℕ → Wire

-- The value of a secret as it stands in an answer, in base64.
pub record RawSecretValue : Type 0 where
  pub value : List ℕ
  pub version : ℕ

abbrev pub error_of_status : ℕ → SetecError
error_of_status status =
    if status == 404
    then not_found
    else if status == 403
    then access_denied
    else if status == 412
    then version_claimed
    else if status == 400
    then invalid_request
    else server status

abbrev pub is_success : ℕ → Bool
is_success status = leb 200 status && ltb status 300

abbrev pub read_body {ℓ} : {A : Type ℓ} → Option A → Result SetecError (Option A)
read_body none = err decode
read_body (some a) = ok (some a)

-- `call`; `ok none` is HTTP 304
unfoldable pub call {ℓ} : {A : Type ℓ} → (List ℕ → Option A) → Wire → Result SetecError (Option A)
call read unreachable = err transport
call read timed_out = err transport
call read unusable_url = err invalid_url
call read unwritable_body = err decode
call read (replied status bytes) =
    if status == 304
    then ok none
    else if not (is_success status)
    then err (error_of_status status)
    else read_body (read bytes)

abbrev pub or_304 {ℓ} : {A : Type ℓ} → Result SetecError (Option A) → Result SetecError A
or_304 (err e) = err e
or_304 (ok none) = err decode
or_304 (ok (some a)) = ok a

-- `call_ok`
unfoldable pub call_ok {ℓ} : {A : Type ℓ} → (List ℕ → Option A) → Wire → Result SetecError A
call_ok read w = or_304 (call read w)

abbrev pub dropped {ℓ} : {A : Type ℓ} → Result SetecError (Option A) → Result SetecError (Unit {0})
dropped (err e) = err e
dropped (ok _) = ok tt

-- `call_unit`
unfoldable pub call_unit {ℓ} :
    {A : Type ℓ} → (List ℕ → Option A) → Wire → Result SetecError (Unit {0})
call_unit read w = dropped (call read w)

module _ (read : List ℕ → Option RawSecretValue) (base64 : List ℕ → Option (List ℕ)) where
  abbrev pub decoded : ℕ → Option (List ℕ) → Result SetecError SecretValue
  decoded version none = err decode
  decoded version (some bytes) = ok (record { value = bytes; version = version })

  -- `RawSecretValue::decode`
  abbrev pub decode_raw : RawSecretValue → Result SetecError SecretValue
  decode_raw raw = decoded raw.version (base64 raw.value)

  abbrev pub get_of : Result SetecError (Option RawSecretValue) → Result SetecError SecretValue
  get_of (err e) = err e
  get_of (ok none) = err decode
  get_of (ok (some raw)) = decode_raw raw

  abbrev pub present : Result SetecError SecretValue → Result SetecError (Option SecretValue)
  present (err e) = err e
  present (ok v) = ok (some v)

  abbrev pub changed_of :
      Result SetecError (Option RawSecretValue) → Result SetecError (Option SecretValue)
  changed_of (err e) = err e
  changed_of (ok none) = ok none
  changed_of (ok (some raw)) = present (decode_raw raw)

  -- `get_version`
  unfoldable pub get_version : Wire → Result SetecError SecretValue
  get_version w = get_of (call read w)

  -- `get_if_changed`
  unfoldable pub get_if_changed : Wire → Result SetecError (Option SecretValue)
  get_if_changed w = changed_of (call read w)

  -- No answer came, or a server error.
  abbrev pub has_no_answer : Wire → Bool
  has_no_answer unreachable = true
  has_no_answer timed_out = true
  has_no_answer unusable_url = false
  has_no_answer unwritable_body = false
  has_no_answer (replied status bytes) = leb 500 status && ltb status 600

  abbrev pub is_not_modified : Wire → Bool
  is_not_modified (replied status bytes) = status == 304
  is_not_modified _ = false

  -- The two gets agree but for HTTP 304, and an error may pass exactly if no answer came.
  abbrev pub Agree :
      Wire → Result SetecError SecretValue → Result SetecError (Option SecretValue) → Type 0
  Agree w (ok v) c = c ≡ ok (some v)
  Agree w (err e) (err x) = (x ≡ e) × (is_retryable e ≡ has_no_answer w)
  Agree w (err e) (ok none) = (e ≡ decode) × (is_not_modified w ≡ true)
  Agree w (err e) (ok (some v)) = ⊥

  error_of_status-is_retryable :
      (status : ℕ) → is_retryable (error_of_status status) ≡ (leb 500 status && ltb status 600)
  unfolding is_retryable
  error_of_status-is_retryable status = ground arith

  decoded-Agree :
      (w : Wire) (version : ℕ) (b : Option (List ℕ))
      → has_no_answer w ≡ false
      → Agree w (decoded version b) (present (decoded version b))
  unfolding is_retryable
  decoded-Agree w version none h = (refl, sym h)
  decoded-Agree w version (some bytes) h = refl

  read-Agree :
      (w : Wire) (body : Option RawSecretValue)
      → has_no_answer w ≡ false
      → Agree w (get_of (read_body body)) (changed_of (read_body body))
  unfolding is_retryable
  read-Agree w none h = (refl, sym h)
  read-Agree w (some raw) h = decoded-Agree w raw.version (base64 raw.value) h

  -- However a request ends, the conditional get gives the value that the plain get gives, or its
  -- error; they differ only on HTTP 304, which is "unchanged" for the one and malformed for the other.
  -- An error counts as one that may pass exactly if no answer came in time or the status is a 5xx.
  pub get_version-Agree : (w : Wire) → Agree w (get_version w) (get_if_changed w)
  unfolding get_version get_if_changed call is_retryable
  get_version-Agree unreachable = (refl, refl)
  get_version-Agree timed_out = (refl, refl)
  get_version-Agree unusable_url = (refl, refl)
  get_version-Agree unwritable_body = (refl, refl)
  get_version-Agree (replied status bytes) = elim (Bool-cases (status == 304)) [
    | inl t ↦ rw t (refl, t)
    | inr f ↦ elim (Bool-cases (is_success status)) [
      | inl u ↦ rw (f, u) (read-Agree (replied status bytes) (read bytes) (ground arith))
      | inr n ↦ rw (f, n) (refl, error_of_status-is_retryable status)
    ]
  ]
