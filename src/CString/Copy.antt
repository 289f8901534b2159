-- ===== src/CString/Copy.antt =====
-- What `copy_string` leaves in its target.
use aetus.Base.{
  ℕ, zero, suc, ◌-◌, ◌<◌, ◌≡◌, refl, ap, ◌∙◌, true, none, some, List, [], ◌∷◌, arith, ◌==◌, false,
  length, set, take, take_all, length-set,
}
use aetus.CString.{CStr, IsText, c_str, strncpy, copy_string, string_fits}

length-strncpy : (t s : List ℕ) (n : ℕ) → length (strncpy t s n) ≡ length t
unfolding strncpy
length-strncpy t s zero = refl
length-strncpy [] s (suc n) = refl
length-strncpy (t ∷ ts) [] (suc n) = ap suc (length-strncpy ts [] n)
length-strncpy (t ∷ ts) (c ∷ cs) (suc n) = ap suc (length-strncpy ts cs n)

-- The array keeps its size.
pub length-copy_string : (t : List ℕ) (n : ℕ) (s : CStr) → length (copy_string t n s) ≡ length t
unfolding copy_string
length-copy_string t n none = ground (arith, length-set t 0 0)
length-copy_string t n (some s) =
    ground (arith, length-set (strncpy t s (n - 1)) (n - 1) 0, length-strncpy t s (n - 1))

c_str-terminated :
    (t s : List ℕ) (n : ℕ) → n < length t → IsText s → c_str (set (strncpy t s n) n 0) ≡ take n s
unfolding c_str strncpy
c_str-terminated [] s n h text = absurd (omega arith)
c_str-terminated (t ∷ ts) s zero h text = refl
c_str-terminated (t ∷ ts) [] (suc n) h text = refl
c_str-terminated (t ∷ ts) (c ∷ cs) (suc n) h text =
    ground (arith, c_str-terminated ts cs n (omega arith) text.1)

-- After `copy_string` into an array of `n` bytes, the array holds the source, cut to `n - 1`
-- bytes: it always has a terminator inside the array.
pub c_str-copy_string :
    (t : List ℕ) (n : ℕ) (s : List ℕ)
    → length t ≡ n
    → 0 < n
    → IsText s
    → c_str (copy_string t n (some s)) ≡ take (n - 1) s
unfolding copy_string
c_str-copy_string t n s len pos text =
    ground (arith, c_str-terminated t s (n - 1) (omega arith) text)

-- `copy_string` copies a source that `string_fits` accepts as a whole.
pub copy_string-whole :
    (t : List ℕ) (n : ℕ) (s : List ℕ)
    → length t ≡ n
    → IsText s
    → string_fits (some s) n ≡ true
    → c_str (copy_string t n (some s)) ≡ s
unfolding string_fits
copy_string-whole t n s len text fits =
    let short : length s < n = ground arith in
    c_str-copy_string t n s len (omega arith) text ∙ take_all (n - 1) s (omega arith)

-- A text is the string of its bytes.
pub c_str-IsText : (s : List ℕ) → IsText s → c_str s ≡ s
unfolding c_str
c_str-IsText [] h = refl
c_str-IsText (c ∷ cs) h =
    let nonzero : (c == 0) ≡ false = ground arith in rw nonzero (ap (◌∷◌ c) (c_str-IsText cs h.1))
