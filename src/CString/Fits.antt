-- ===== src/CString/Fits.antt =====
-- What the two length checks decide.
use aetus.Base.{ℕ, ◌≤◌, ◌<◌, ◌≡◌, ◌↔◌, Bool, true, ◌&&◌, ltb, some, List, [], ◌∷◌, arith, length}
use aetus.CString.{IsText, string_fits, string_required_fits}

-- `string_fits` accepts exactly the strings that leave room for the terminator.
pub string_fits_iff : (s : List ℕ) (n : ℕ) → (string_fits (some s) n ≡ true) ↔ (length s < n)
unfolding string_fits
string_fits_iff s n = ground arith

-- `string_required_fits` accepts exactly the strings of one to `n` bytes.
pub string_required_fits_iff :
    (s : List ℕ) (n : ℕ)
    → (string_required_fits (some s) n ≡ true) ↔ ((0 < length s) × (length s ≤ n))
unfolding string_required_fits
string_required_fits_iff [] n = ground arith
string_required_fits_iff (c ∷ cs) n = ground arith

-- A text that is tested for bytes of 0.
abbrev pub all_nonzero : List ℕ → Bool
all_nonzero [] = true
all_nonzero (c ∷ cs) = ltb 0 c && all_nonzero cs

pub nonzero-IsText : (s : List ℕ) → all_nonzero s ≡ true → IsText s
nonzero-IsText [] e = tt
nonzero-IsText (c ∷ cs) e = (ground arith, nonzero-IsText cs (ground arith))
