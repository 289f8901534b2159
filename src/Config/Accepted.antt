-- ===== src/Config/Accepted.antt =====
-- The configurations that `aetus_start` and `aetus_update_config` accept.
use aetus.Base.{
  ℕ, ◌+◌, ◌<◌, ◌≤◌, ◌≡◌, ◌↔◌, refl, ◌∙◌, Bool, true, false, Bool-cases, if◌then◌else◌, inl, inr,
  none, some, [], ◌∷◌, arith, length,
}
use aetus.Types.{
  Config, url_max, wifi_password_max, wifi_ssid_max, wifi_identity_max, device_id_max,
  device_token_max,
}
use aetus.Esp.{invalid_arg, Result, ok, err, guard, guard-ok, >>-ok, ◌>>◌}
use aetus.CString.{CStr, string_required_fits, string_fits}
use aetus.Frame.{has_text}
use aetus.Config.{start_checks, update_checks, is_peap, is_wifi_auth, is_auth_mode}

required-has_text : (s : CStr) (n : ℕ) → string_required_fits s n ≡ true → has_text s ≡ true
unfolding string_required_fits
required-has_text none n e = cc
required-has_text (some []) n e = cc
required-has_text (some (c ∷ cs)) n e = refl

guard_last : (m : Result (Unit {0})) → (m >> ok tt) ≡ m
guard_last (ok u) = refl
guard_last (err e) = refl

-- The start has one more check, which the others imply: both accept the same configurations, with
-- the same error for the rest.
pub start_checks-update_checks : (config : Config) → start_checks config ≡ update_checks config
unfolding start_checks update_checks
start_checks-update_checks config =
    elim (Bool-cases (string_required_fits config.wifi_password wifi_password_max)) [
      | inl y ↦
          rw
            (
              required-has_text config.wifi_password wifi_password_max y,
              guard_last
                  (guard (string_required_fits config.wifi_identity wifi_identity_max) invalid_arg),
            )
            refl
      | inr n ↦ rw n (elim (Bool-cases (string_required_fits config.wifi_ssid wifi_ssid_max)) [
        | inl y ↦ rw y refl
        | inr n' ↦ rw n' refl
      ])
    ]

-- What a string that is required, or that may be missing, must satisfy.
abbrev pub IsRequired : CStr → ℕ → Type 0
IsRequired none n = ⊥
IsRequired (some s) n = (0 < length s) × (length s ≤ n)

abbrev pub IsOptional : CStr → ℕ → Type 0
IsOptional none n = Unit
IsOptional (some s) n = length s ≤ n

-- A configuration that the component can run with.
pub record IsAcceptable (config : Config) : Type 0 where
  pub ssid : IsRequired config.wifi_ssid wifi_ssid_max
  pub password : IsRequired config.wifi_password wifi_password_max
  pub auth : is_wifi_auth config.wifi_auth ≡ true
  pub mode : is_auth_mode config.auth_mode ≡ true
  pub identity : is_peap config.wifi_auth ≡ true → IsRequired config.wifi_identity wifi_identity_max
  pub ingest : IsRequired config.ingest_url url_max
  pub time : IsOptional config.time_url url_max
  pub device : IsRequired config.device_id device_id_max
  pub token : IsRequired config.device_token device_token_max

IsRequired-iff : (s : CStr) (n : ℕ) → (string_required_fits s n ≡ true) ↔ IsRequired s n
unfolding string_required_fits
IsRequired-iff none n = (λ e. cc, λ e. absurd e)
IsRequired-iff (some []) n = ground arith
IsRequired-iff (some (c ∷ cs)) n = ground arith

IsOptional-iff : (s : CStr) (n : ℕ) → (string_fits s (n + 1) ≡ true) ↔ IsOptional s n
unfolding string_fits
IsOptional-iff none n = (λ e. tt, λ e. refl)
IsOptional-iff (some s) n = ground arith

accepted-IsAcceptable : (config : Config) → update_checks config ≡ ok tt → IsAcceptable config
unfolding update_checks
accepted-IsAcceptable config h =
    let (head, rest) = >>-ok _ h in
    let g1 = guard-ok _ _ head in
    let g2 = guard-ok _ _ g1.1 in
    let g3 = guard-ok _ _ g2.1 in
    let g4 =
      guard-ok _ _ ((guard_last (guard (is_auth_mode config.auth_mode) invalid_arg)) ∙ g3.1) in
    let (peap_ok, tail) = >>-ok _ rest in
    let t1 = guard-ok _ _ tail in
    let t2 = guard-ok _ _ t1.1 in
    let t3 = guard-ok _ _ t2.1 in
    let t4 = guard-ok _ _ (
      (guard_last (guard (string_required_fits config.device_token device_token_max) invalid_arg))
      ∙ t3.1) in
    record {
      ssid = (IsRequired-iff _ _).0 g1.0;
      password = (IsRequired-iff _ _).0 g2.0;
      auth = g3.0;
      mode = g4.0;
      identity = λ e.
          let here = rw e at peap_ok in
          (IsRequired-iff _ _).0 (guard-ok _ _ (guard_last _ ∙ here)).0;
      ingest = (IsRequired-iff _ _).0 t1.0;
      time = (IsOptional-iff _ _).0 t2.0;
      device = (IsRequired-iff _ _).0 t3.0;
      token = (IsRequired-iff _ _).0 t4.0;
    }

IsAcceptable-accepted : (config : Config) → IsAcceptable config → update_checks config ≡ ok tt
unfolding update_checks
IsAcceptable-accepted config a =
    rw
      (
        (IsRequired-iff config.wifi_ssid wifi_ssid_max).1 a.ssid,
        (IsRequired-iff config.wifi_password wifi_password_max).1 a.password,
        a.auth,
        a.mode,
        (IsRequired-iff config.ingest_url url_max).1 a.ingest,
        (IsOptional-iff config.time_url url_max).1 a.time,
        (IsRequired-iff config.device_id device_id_max).1 a.device,
        (IsRequired-iff config.device_token device_token_max).1 a.token,
      )
      (elim (Bool-cases (is_peap config.wifi_auth)) [
        | inl y ↦
            rw (y, (IsRequired-iff config.wifi_identity wifi_identity_max).1 (a.identity y)) refl
        | inr n ↦ rw n refl
      ])

-- A configuration passes the checks exactly if its strings are there and fit, with an identity where
-- PEAP needs one, and its modes are known.
pub update_checks_iff : (config : Config) → (update_checks config ≡ ok tt) ↔ IsAcceptable config
update_checks_iff config = (accepted-IsAcceptable config, IsAcceptable-accepted config)

-- A check that fails has the code for an invalid argument.
abbrev pub RefusesInvalid : Result (Unit {0}) → Type 0
RefusesInvalid (ok u) = Unit
RefusesInvalid (err e) = e ≡ invalid_arg

guard-RefusesInvalid : (b : Bool) → RefusesInvalid (guard b invalid_arg)
guard-RefusesInvalid true = tt
guard-RefusesInvalid false = refl

>>-RefusesInvalid :
    (m k : Result (Unit {0})) → RefusesInvalid m → RefusesInvalid k → RefusesInvalid (m >> k)
>>-RefusesInvalid (ok u) k a b = b
>>-RefusesInvalid (err e) k a b = a

guard_then :
    (b : Bool) (k : Result (Unit {0}))
    → RefusesInvalid k
    → RefusesInvalid (guard b invalid_arg >> k)
guard_then b k = >>-RefusesInvalid (guard b invalid_arg) k (guard-RefusesInvalid b)

peap-RefusesInvalid : (b c : Bool) → RefusesInvalid (if b then guard c invalid_arg else ok tt)
peap-RefusesInvalid true c = guard-RefusesInvalid c
peap-RefusesInvalid false c = tt

pub update_checks-RefusesInvalid : (config : Config) → RefusesInvalid (update_checks config)
unfolding update_checks
update_checks-RefusesInvalid config =
    search (>>-RefusesInvalid, guard-RefusesInvalid, peap-RefusesInvalid) depth 12
