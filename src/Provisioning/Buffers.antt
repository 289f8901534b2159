-- ===== src/Provisioning/Buffers.antt =====
-- The arrays that a write fills in: what they hold, and that they stay terminated.
use aetus.Base.{
  ℕ, ◌+◌, ◌-◌, ◌≤◌, ◌<◌, ◌≡◌, refl, ap, ◌∙◌, true, false, Bool-cases, inl, inr, some, List, [], ◌∷◌,
  ◌++◌, arith, leb, ◌==◌, length, length-append, length-drop, length-set, drop, set,
}
use mathlib.Core.List.{append_assoc}
use aetus.CString.{c_str}
use aetus.Provisioning.{
  Mbufs, AttCode, success, invalid_value_len, write_text, strip, keep_unless_empty, is_eol,
}

-- NimBLE copies a packet out whole if there is room for it.
abbrev pub CopiesWhole : Mbufs → Type 0
CopiesWhole mbufs = (om : List ℕ) (n : ℕ) → length om ≤ n → mbufs.to_flat om n ≡ some om

-- An array of some size that holds a terminated string.
abbrev pub IsBuffer : ℕ → List ℕ → Type 0
IsBuffer size array = (length array ≡ size) × (length (c_str array) < size)

keep-split :
    (c : ℕ) (s tail : List ℕ) → (rest : List ℕ) × (c ∷ s ++ tail ≡ keep_unless_empty c s ++ rest)
keep-split c [] tail = elim (Bool-cases (is_eol c)) [
  | inl y ↦ (c ∷ tail, rw y refl)
  | inr y ↦ (tail, rw y refl)
]
keep-split c (d ∷ ds) tail = (tail, refl)

-- What is stripped stands at the end.
strip-split : (om : List ℕ) → (tail : List ℕ) × (om ≡ strip om ++ tail)
unfolding strip
strip-split [] = ([], refl)
strip-split (c ∷ cs) =
    let (tail, e) = strip-split cs in
    let (rest, f) = keep-split c (strip cs) tail in (rest, ap (◌∷◌ c) e ∙ f)

pub c_str-append_nul : (xs ys : List ℕ) → c_str (xs ++ 0 ∷ ys) ≡ c_str xs
unfolding c_str
c_str-append_nul [] ys = refl
c_str-append_nul (x ∷ xs) ys = ground (arith, c_str-append_nul xs ys)

pub length-c_str : (xs : List ℕ) → length (c_str xs) ≤ length xs
unfolding c_str
length-c_str [] = omega arith
length-c_str (x ∷ xs) = ground (arith, length-c_str xs)

set_at_end :
    (xs zs : List ℕ) (v : ℕ) → 0 < length zs → set (xs ++ zs) (length xs) v ≡ xs ++ v ∷ drop 1 zs
set_at_end [] [] v h = absurd (omega arith)
set_at_end [] (z ∷ zs) v h = refl
set_at_end (x ∷ xs) zs v h = ap (◌∷◌ x) (set_at_end xs zs v h)

-- The array after the copy and the terminator.
abbrev pub filled : List ℕ → List ℕ → List ℕ
filled om target = set (om ++ drop (length om) target) (length (strip om)) 0

filled_lem :
    (om target : List ℕ)
    → length om < length target
    → (length (filled om target) ≡ length target)
      × (c_str (filled om target) ≡ c_str (strip om))
      × (length (strip om) ≤ length om)
filled_lem om target lt =
    let (tail, e) = strip-split om in
    let rest = tail ++ drop (length om) target in
    let parts : om ++ drop (length om) target ≡ strip om ++ rest =
      ap (λ xs. xs ++ drop (length om) target) e
      ∙ append_assoc (strip om) tail (drop (length om) target) in
    let whole : length om ≡ length (strip om) + length tail =
      ap length e ∙ length-append {0} (strip om) tail in
    let more : 0 < length rest = omega (
      arith,
      length-append {0} tail (drop (length om) target),
      length-drop {0} (length om) target,
    ) in
    (
      length-set {0} (om ++ drop (length om) target) (length (strip om)) 0
          ∙ length-append {0} om (drop (length om) target)
          ∙ omega (arith, length-drop {0} (length om) target),
      ap (λ xs. c_str (set xs (length (strip om)) 0)) parts
          ∙ ap c_str (set_at_end (strip om) rest 0 more)
          ∙ c_str-append_nul (strip om) (drop 1 rest),
      omega arith,
    )

-- What a write does: it is refused for its length and nothing changes, or the text without the line
-- ends behind it is in the array.
pub data IsWritten (om target : List ℕ) (size : ℕ) : AttCode × List ℕ → Type 0 where
  too_long : size ≤ length om → IsWritten om target size (invalid_value_len, target)
  wrote :
      {array : List ℕ}
      → length om < size
      → IsBuffer size array
      → c_str array ≡ c_str (strip om)
      → IsWritten om target size (success, array)

pub write_text-IsWritten :
    (mbufs : Mbufs) (om target : List ℕ) (size : ℕ)
    → CopiesWhole mbufs
    → 0 < size
    → length target ≡ size
    → IsWritten om target size (write_text mbufs om target size)
unfolding write_text
write_text-IsWritten mbufs om target size copies pos len =
    elim (Bool-cases (leb size (length om))) [
      | inl y ↦
          let nonzero : (size == 0) ≡ false = ground arith in
          rw (nonzero, y) (too_long (ground arith))
      | inr y ↦
          let nonzero : (size == 0) ≡ false = ground arith in
          let lt : length om < size = ground arith in
          let (same, text, short) = filled_lem om target (omega arith) in
          let terminated : length (c_str (filled om target)) < size =
            omega (arith, ap length text, length-c_str (strip om)) in
          rw (nonzero, y, copies om (size - 1) (omega arith))
            (wrote lt (same ∙ len, terminated) text)
    ]

pub write_text-too_long :
    (mbufs : Mbufs) (om target : List ℕ) (size : ℕ)
    → size ≤ length om
    → write_text mbufs om target size ≡ (invalid_value_len, target)
unfolding write_text
write_text-too_long mbufs om target size h =
    let long : leb size (length om) ≡ true = ground arith in
    elim (Bool-cases (size == 0)) [ inl y ↦ rw y refl | inr n ↦ rw (n, long) refl ]
