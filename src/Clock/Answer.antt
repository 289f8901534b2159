-- ===== src/Clock/Answer.antt =====
-- The answer of the server, and what is read from it.
use aetus.Base.{
  ℕ, ◌/◌, ◌≤◌, ◌<◌, ◌≡◌, refl, ◌∙◌, true, false, some, List, [], ◌∷◌, ◌++◌, ◌==◌, arith, All,
  All-append, codes,
}
use aetus.Types.{u64_mod}
use aetus.Esp.{ok}
use aetus.CString.{IsText}
use aetus.CString.Fits.{all_nonzero, nonzero-IsText}
use aetus.Decimal.{print}
use aetus.Decimal.Digits.{strto-print_then, digits_of-digits, pow10}
use aetus.Clock.Fetch.{strstr, strchr, skip_blanks, time_key, parse_unix_time_ns}

-- What services/ingest-api answers to a request for the time, from its third member on `rest`: the
-- seconds, the milliseconds, and the nanoseconds as a string.
unfoldable pub time_sync : ℕ → List ℕ → List ℕ
time_sync unix_time_ns rest =
    let from_ns = codes ",\"unix_time_ns\":\"" ++ (print unix_time_ns ++ 34 ∷ rest) in
    let from_ms = codes ",\"unix_time_ms\":" ++ (print (unix_time_ns / 1000000) ++ from_ns) in
    codes "{\"unix_time_s\":" ++ (print (unix_time_ns / 1000000000) ++ from_ms)

-- No key starts at a digit.
strstr-skip :
    (xs ys : List ℕ) → All (λ c. 48 ≤ c) xs → strstr (xs ++ ys) time_key ≡ strstr ys time_key
unfolding strstr
strstr-skip [] ys h = refl
strstr-skip (c ∷ cs) ys h =
    let other : (34 == c) ≡ false = ground arith in rw other (strstr-skip cs ys h.1)

print-digits : (n : ℕ) → All (λ c. 48 ≤ c) (print n)
unfolding print
print-digits n = digits_of-digits 20 n

-- What stands from the colon behind the key on.
abbrev behind_key : ℕ → List ℕ → List ℕ
behind_key n rest = codes ":\"" ++ (print n ++ 34 ∷ rest)

key_found :
    (n : ℕ) (rest : List ℕ)
    → strstr (time_sync n rest) time_key ≡ some (time_key ++ behind_key n rest)
unfolding strstr time_sync
key_found n rest =
    let from_millis =
      codes ",\"unix_time_ms\":"
      ++ (print (n / 1000000) ++ (codes "," ++ (time_key ++ behind_key n rest))) in
    let from_key = codes "," ++ (time_key ++ behind_key n rest) in
    let first : strstr (time_sync n rest) time_key ≡ strstr from_millis time_key =
      strstr-skip (print (n / 1000000000)) from_millis (print-digits (n / 1000000000)) in
    let second : strstr from_millis time_key ≡ strstr from_key time_key =
      strstr-skip (print (n / 1000000)) from_key (print-digits (n / 1000000)) in
    first ∙ second

-- The time is read from the answer of the server, whatever follows it.
pub parse-time_sync :
    (n : ℕ) (rest : List ℕ) → n < u64_mod → parse_unix_time_ns (time_sync n rest) ≡ ok n
unfolding parse_unix_time_ns strchr skip_blanks pow10
parse-time_sync n rest lt =
    rw (key_found n rest, strto-print_then u64_mod n 34 rest lt (omega arith) refl) refl

print-IsText : (n : ℕ) → IsText (print n)
print-IsText n = positive (print n) (print-digits n)
  where
    positive : (s : List ℕ) → All (λ c. 48 ≤ c) s → IsText s
    positive [] h = tt
    positive (c ∷ cs) h = (omega (arith, h.0), positive cs h.1)

pub time_sync-IsText : (n : ℕ) (rest : List ℕ) → IsText rest → IsText (time_sync n rest)
unfolding time_sync
time_sync-IsText n rest text =
    let from_ns = codes ",\"unix_time_ns\":\"" ++ (print n ++ 34 ∷ rest) in
    let from_ms = codes ",\"unix_time_ms\":" ++ (print (n / 1000000) ++ from_ns) in
    let ns : IsText from_ns =
      literal_then (codes ",\"unix_time_ns\":\"") n (34 ∷ rest) refl (omega arith, text) in
    let ms : IsText from_ms =
      literal_then (codes ",\"unix_time_ms\":") (n / 1000000) from_ns refl ns in
    literal_then (codes "{\"unix_time_s\":") (n / 1000000000) from_ms refl ms
  where
    literal_then :
        (s : List ℕ) (k : ℕ) (ys : List ℕ)
        → all_nonzero s ≡ true
        → IsText ys
        → IsText (s ++ (print k ++ ys))
    literal_then s k ys e b =
        All-append (λ c. 0 < c) s (print k ++ ys) (nonzero-IsText s e)
          (All-append (λ c. 0 < c) (print k) ys (print-IsText k) b)
