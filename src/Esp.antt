-- ===== src/Esp.antt =====
-- The error codes of ESP-IDF that the firmware returns, and the chain of fallible steps that
-- `ESP_RETURN_ON_FALSE` and `ESP_RETURN_ON_ERROR` write. A function of a third-party library may
-- return a code that the firmware never names: `other`.
use aetus.Base.{◌≡◌, refl, ap, ℕ, Bool, true, false, Option, none, some}

pub data EspErr : Type 0 where
  esp_ok esp_fail no_mem invalid_arg invalid_state invalid_size : EspErr
  not_supported timeout invalid_response : EspErr
  nvs_no_free_pages nvs_new_version_found : EspErr
  other : ℕ → EspErr

-- `err == ESP_OK`
abbrev pub is_ok : EspErr → Bool
is_ok esp_ok = true
is_ok _ = false

pub data Result {ℓ} (A : Type ℓ) : Type ℓ where
  ok : A → Result A
  err : EspErr → Result A

infixl 5 ◌>>=◌ ◌>>◌
abbrev pub ◌>>=◌ {ℓ κ} : {X : Type ℓ} {Y : Type κ} → Result X → (X → Result Y) → Result Y
err code >>= next = err code
ok value >>= next = next value

abbrev pub ◌>>◌ {ℓ} : {Y : Type ℓ} → Result (Unit {0}) → Result Y → Result Y
step >> next = step >>= λ done. next

-- `ESP_RETURN_ON_FALSE(condition, code, ...)`
abbrev pub guard : Bool → EspErr → Result (Unit {0})
guard true e = ok tt
guard false e = err e

-- `ESP_RETURN_ON_ERROR(code, ...)`
abbrev pub check : EspErr → Result (Unit {0})
check esp_ok = ok tt
check e = err e

-- `value != NULL`
abbrev pub is_some {ℓ} : {A : Type ℓ} → Option A → Bool
is_some none = false
is_some (some _) = true

-- `value == NULL`
abbrev pub is_null {ℓ} : {A : Type ℓ} → Option A → Bool
is_null none = true
is_null (some _) = false

-- What a pointer leads to, after a check that it is not `NULL`.
abbrev pub or_err {ℓ} : {A : Type ℓ} → Option A → EspErr → Result A
or_err none e = err e
or_err (some a) e = ok a

-- What holds of the value, if there is one.
abbrev pub OptionAll {ℓ κ} : {A : Type ℓ} → (A → Type κ) → Option A → Type κ
OptionAll P none = Unit
OptionAll P (some a) = P a

abbrev from_ok {ℓ} : {A : Type ℓ} → A → Result A → A
from_ok d (ok a) = a
from_ok d (err e) = d

-- A guard that is passed, and a first step that succeeds.
pub guard-ok {ℓ} :
    {A : Type ℓ} (b : Bool) (e : EspErr) {k : Result A} {a : A}
    → (guard b e >> k) ≡ ok a
    → (b ≡ true) × (k ≡ ok a)
guard-ok true e h = (refl, h)
guard-ok false e h = cc

pub >>-ok {ℓ} :
    {A : Type ℓ} (m : Result (Unit {0})) {k : Result A} {a : A}
    → (m >> k) ≡ ok a
    → (m ≡ ok tt) × (k ≡ ok a)
>>-ok (ok u) h = (refl, h)
>>-ok (err e) h = cc

pub >>=-ok {ℓ κ} :
    {A : Type ℓ} {B : Type κ} (m : Result A) {k : A → Result B} {b : B}
    → (m >>= k) ≡ ok b
    → (a : A) × (m ≡ ok a) × (k a ≡ ok b)
>>=-ok (ok a) h = (a, refl, h)
>>=-ok (err e) h = cc

pub ok-injective {ℓ} : {A : Type ℓ} {a b : A} → ok a ≡ ok b → a ≡ b
ok-injective {a} e = ap (from_ok a) e
