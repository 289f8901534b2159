-- ===== src/CString/Suffix.antt =====
-- `ends_with` decides whether one string is a suffix of the other.
use aetus.Base.{
  ℕ, ◌-◌, ◌≡◌, ◌∙◌, sym, ap, true, some, List, ◌++◌, arith, length, take, drop, length-append,
  take-append-drop, drop-length-append, bytes_eq_refl, bytes_eq→eq,
}
use aetus.CString.{ends_with}

-- A string that `ends_with` accepts is some prefix and then the suffix.
pub ends_with-split :
    (v s : List ℕ) → ends_with (some v) (some s) ≡ true → take (length v - length s) v ++ s ≡ v
unfolding ends_with
ends_with-split v s h =
    let same : drop (length v - length s) v ≡ s =
      ground (arith, bytes_eq→eq (drop (length v - length s) v) s) in
    ap (◌++◌ (take (length v - length s) v)) (sym same) ∙ take-append-drop (length v - length s) v

-- And every such string is accepted.
pub ends_with-append : (p s : List ℕ) → ends_with (some (p ++ s)) (some s) ≡ true
unfolding ends_with
ends_with-append p s =
    let n : length (p ++ s) - length s ≡ length p = omega (arith, length-append {0} p s) in
    rw (n, drop-length-append p s, bytes_eq_refl s) (ground (arith, length-append {0} p s))
