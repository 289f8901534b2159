-- ===== src/Decimal.antt =====
-- Decimal numbers of the C library, as firmware/esp32-aetus/components/aetus uses them: `strtoul` and
-- `strtoull` with base 10, and `%lu`. The modulus is 2^32 or 2^64.
pub mod Digits
use aetus.Base.{
  ℕ, zero, suc, ◌+◌, ◌-◌, ◌*◌, ◌/◌, ◌%◌, Bool, true, false, ◌&&◌, ◌||◌, Option, none, some, List,
  [], ◌∷◌, ◌++◌, ltb, leb, ◌==◌, if◌then◌else◌,
}

-- `isspace`
abbrev pub is_space : ℕ → Bool
is_space c = c == 32 || leb 9 c && leb c 13

abbrev pub is_digit : ℕ → Bool
is_digit c = leb 48 c && leb c 57

unfoldable pub skip_space : List ℕ → List ℕ
skip_space [] = []
skip_space (c ∷ cs) = let rest = skip_space cs in if is_space c then rest else c ∷ cs

-- Whether there is a minus sign, and what follows the sign.
abbrev pub after_sign : List ℕ → Bool × List ℕ
after_sign [] = (false, [])
after_sign (c ∷ cs) =
    if c == b'-' then (true, cs) else if c == b'+' then (false, cs) else (false, c ∷ cs)

-- The number that the digits at the head say, after those that said `n`, and what follows them.
unfoldable pub read_digits : ℕ → List ℕ → ℕ × List ℕ
read_digits n [] = (n, [])
read_digits n (c ∷ cs) =
    let rest = read_digits (n * 10 + (c - 48)) cs in if is_digit c then rest else (n, c ∷ cs)

abbrev pub starts_digit : List ℕ → Bool
starts_digit [] = false
starts_digit (c ∷ _) = is_digit c

-- What is read: the value, whether `errno` is `ERANGE`, and the rest of the string.
pub record Reading : Type 0 where
  pub value : ℕ
  pub out_of_range : Bool
  pub rest : List ℕ

abbrev pub in_range : ℕ → Bool → ℕ × List ℕ → Reading
in_range modulus negative (n, rest) =
    if ltb n modulus
    then record {
      value = if negative then (modulus - n) % modulus else n;
      out_of_range = false;
      rest = rest;
    }
    else record { value = modulus - 1; out_of_range = true; rest = rest }

abbrev pub read_number : ℕ → Bool × List ℕ → Option Reading
read_number modulus (negative, s) =
    if starts_digit s then some (in_range modulus negative (read_digits 0 s)) else none

-- `none` where there is no number: `end` is the start of the string.
unfoldable pub strto : ℕ → List ℕ → Option Reading
unfolding skip_space read_digits
strto modulus s = read_number modulus (after_sign (skip_space s))

-- The digits of a number, with fuel for their count.
unfoldable pub digits_of : ℕ → ℕ → List ℕ
digits_of zero n = []
digits_of (suc fuel) n =
    let high = digits_of fuel (n / 10) in
    if ltb n 10 then (48 + n) ∷ [] else high ++ (48 + n % 10) ∷ []

-- `%lu` of a number of at most 20 digits, which 64 bits do not exceed.
unfoldable pub print : ℕ → List ℕ
unfolding digits_of
print n = digits_of 20 n
