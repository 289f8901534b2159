-- ===== src/Decimal/Digits.antt =====
-- What is printed is read back.
use aetus.Base.{
  ℕ, zero, suc, ◌+◌, ◌-◌, ◌*◌, ◌/◌, ◌%◌, ◌≤◌, ◌<◌, ◌≡◌, refl, sym, ap, ◌∙◌, true, false, Bool-cases,
  inl, inr, some, List, [], ◌∷◌, ◌++◌, arith, ltb, lt→ltb, ◌==◌, All, All-append, length,
  length-append,
}
use mathlib.Core.List.{append-nil, append_assoc}
use aetus.Decimal.{
  is_digit, is_space, skip_space, read_digits, starts_digit, in_range, strto, digits_of, print,
}

read_digits-digit :
    (m d : ℕ) (rest : List ℕ)
    → d < 10
    → read_digits m ((48 + d) ∷ rest) ≡ read_digits (m * 10 + d) rest
unfolding read_digits
read_digits-digit m d rest lt =
    let same : 48 + d - 48 ≡ d = omega arith in
    let is : is_digit (48 + d) ≡ true = ground arith in rw (is, same) refl

-- The numbers of at most so many digits.
unfoldable pub pow10 : ℕ → ℕ
pow10 zero = 1
pow10 (suc k) = 10 * pow10 k

-- The digits of a number, with what follows them, are read as the number.
pub read_digits-digits_of :
    (fuel n : ℕ) (rest : List ℕ)
    → n < pow10 fuel
    → read_digits 0 (digits_of fuel n ++ rest) ≡ read_digits n rest
unfolding digits_of pow10
read_digits-digits_of zero n rest lt = ap (λ k. read_digits k rest) (omega arith)
read_digits-digits_of (suc fuel) n rest lt = elim (Bool-cases (ltb n 10)) [
  | inl y ↦
      rw y (read_digits-digit 0 n rest (ground arith) ∙ ap (λ k. read_digits k rest) (omega arith))
  | inr y ↦ rw y (
      ap (read_digits 0) (append_assoc (digits_of fuel (n / 10)) ((48 + n % 10) ∷ []) rest)
      ∙ read_digits-digits_of fuel (n / 10) ((48 + n % 10) ∷ rest) (omega arith)
      ∙ read_digits-digit (n / 10) (n % 10) rest (omega arith)
      ∙ ap (λ k. read_digits k rest) (omega arith))
]

-- It starts with a digit.
digits_of-starts :
    (fuel n : ℕ) (rest : List ℕ) → starts_digit (digits_of (suc fuel) n ++ rest) ≡ true
unfolding digits_of
digits_of-starts zero n rest = elim (Bool-cases (ltb n 10)) [
  | inl y ↦ rw y (ground arith)
  | inr y ↦ rw y (ground arith)
]
digits_of-starts (suc fuel) n rest = elim (Bool-cases (ltb n 10)) [
  | inl y ↦ rw y (ground arith)
  | inr y ↦ rw y (
      ap starts_digit (append_assoc (digits_of (suc fuel) (n / 10)) ((48 + n % 10) ∷ []) rest)
      ∙ digits_of-starts fuel (n / 10) ((48 + n % 10) ∷ rest))
]

-- A string that starts with a digit has no space and no sign before it.
strto-digits :
    (modulus : ℕ) (s : List ℕ)
    → starts_digit s ≡ true
    → strto modulus s ≡ some (in_range modulus false (read_digits 0 s))
unfolding strto skip_space
strto-digits modulus [] e = absurd cc
strto-digits modulus (c ∷ cs) e =
    let no_space : is_space c ≡ false = ground arith in
    let no_minus : (c == b'-') ≡ false = ground arith in
    let no_plus : (c == b'+') ≡ false = ground arith in rw (no_space, no_minus, no_plus, e) refl

-- What is read from a number that is printed, with a text behind it that it does not run into.
strto-print_rest :
    (modulus n : ℕ) (rest : List ℕ)
    → n < modulus
    → modulus ≤ pow10 20
    → read_digits n rest ≡ (n, rest)
    → strto modulus (print n ++ rest)
      ≡ some (record { value = n; out_of_range = false; rest = rest })
unfolding print
strto-print_rest modulus n rest lt small ends =
    strto-digits modulus (digits_of 20 n ++ rest) (digits_of-starts 19 n rest)
    ∙ ap (λ r. some (in_range modulus false r))
        (read_digits-digits_of 20 n rest (omega arith) ∙ ends)
    ∙ rw (lt→ltb n modulus lt) refl

-- A number of at most 20 digits that fits the modulus is read back from what is printed of it, and
-- nothing is left over.
pub strto-print :
    (modulus n : ℕ)
    → n < modulus
    → modulus ≤ pow10 20
    → strto modulus (print n) ≡ some (record { value = n; out_of_range = false; rest = [] })
unfolding read_digits
strto-print modulus n lt small =
    ap (strto modulus) (sym (append-nil (print n))) ∙ strto-print_rest modulus n [] lt small refl

-- Or with a byte behind it that is no digit.
pub strto-print_then :
    (modulus n c : ℕ) (cs : List ℕ)
    → n < modulus
    → modulus ≤ pow10 20
    → is_digit c ≡ false
    → strto modulus (print n ++ c ∷ cs)
      ≡ some (record { value = n; out_of_range = false; rest = c ∷ cs })
unfolding read_digits
strto-print_then modulus n c cs lt small no_digit =
    strto-print_rest modulus n (c ∷ cs) lt small (rw no_digit refl)

-- A number below 10^k has at most k digits, at least one, and they are digits.
pub length-digits_of : (fuel k n : ℕ) → 0 < k → n < pow10 k → length (digits_of fuel n) ≤ k
unfolding digits_of pow10
length-digits_of zero k n pos lt = omega arith
length-digits_of (suc fuel) zero n pos lt = absurd (omega arith)
length-digits_of (suc fuel) (suc zero) n pos lt =
    let small : ltb n 10 ≡ true = ground arith in rw small (omega arith)
length-digits_of (suc fuel) (suc (suc k)) n pos lt = elim (Bool-cases (ltb n 10)) [
  | inl y ↦ rw y (omega arith)
  | inr y ↦ rw y (
      omega (
        arith,
        length-append {0} (digits_of fuel (n / 10)) ((48 + n % 10) ∷ []),
        length-digits_of fuel (suc k) (n / 10) (omega arith) (omega arith),
      ))
]

pub digits_of-digits : (fuel n : ℕ) → All (λ c. 48 ≤ c) (digits_of fuel n)
unfolding digits_of
digits_of-digits zero n = tt
digits_of-digits (suc fuel) n = elim (Bool-cases (ltb n 10)) [
  | inl y ↦ rw y (omega arith, tt)
  | inr y ↦ rw y (
      All-append (λ c. 48 ≤ c) (digits_of fuel (n / 10)) ((48 + n % 10) ∷ [])
        (digits_of-digits fuel (n / 10)) (omega arith, tt))
]
