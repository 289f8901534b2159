-- ===== src/Clock/Rtc.antt =====
-- The time that is set is the time that is read.
use aetus.Base.{ℕ, ◌-◌, ◌%◌, ◌<◌, ◌≡◌, ap, subst, ◌+◌, ◌*◌, ◌/◌, Bool, some, arith, leb}
use aetus.Types.{u64_mod, rtc_valid_after_unix_s}
use aetus.Esp.{ok, guard-ok, esp_fail, invalid_response, ok-injective}
use aetus.Clock.{TimeVal, set_rtc_from_unix_time_ns, rtc_timestamp_ns}

microseconds :
    (n : ℕ)
    → n < u64_mod
    → (n / 1000000000 * 1000000000 + n % 1000000000 / 1000 * 1000) % u64_mod ≡ n - n % 1000
microseconds n lt = omega arith

-- A clock that was set from a time and has not moved on gives that time, cut to microseconds.
pub rtc_timestamp_ns-set_rtc :
    (n : ℕ) (set_ok : Bool) (tv : TimeVal)
    → n < u64_mod
    → set_rtc_from_unix_time_ns set_ok n ≡ ok tv
    → rtc_timestamp_ns (some tv) ≡ ok (n - n % 1000)
unfolding set_rtc_from_unix_time_ns rtc_timestamp_ns
rtc_timestamp_ns-set_rtc n set_ok tv lt e =
    let valid = leb rtc_valid_after_unix_s (n / 1000000000) in
    let g1 = guard-ok valid invalid_response e in
    let g2 = guard-ok set_ok esp_fail g1.1 in
    let here = ok-injective g2.1 in
    subst (λ now. rtc_timestamp_ns (some now) ≡ ok (n - n % 1000)) here
      (rw g1.0 (ap ok (microseconds n lt)))
