-- ===== src/Tests/Texts.antt =====
-- Strings in arrays, and bytes as hex digits.
use aetus.Base.{◌<◌, ◌≤◌, ◌≡◌, ◌↔◌, refl, true, some, [], ◌∷◌, arith, length, codes}
use aetus.CString.{IsText, string_required_fits, string_fits, ends_with}
use aetus.CString.Fits.{string_required_fits_iff}
use aetus.Hex.Digits.{IsBytes}

hello-IsText : IsText (codes "hello")
hello-IsText = ground arith

hello_fits : string_fits (some (codes "hello")) 8 ≡ true
unfolding string_fits
hello_fits = refl

string_required_fits_iff_example :
    (string_required_fits (some (codes "hello")) 4 ≡ true)
    ↔ ((0 < length (codes "hello")) × (length (codes "hello") ≤ 4))
string_required_fits_iff_example = string_required_fits_iff (codes "hello") 4

has_suffix : ends_with (some (codes "/v1/ingest")) (some (codes "ingest")) ≡ true
unfolding ends_with
has_suffix = refl

two-IsBytes : IsBytes (10 ∷ 255 ∷ [])
two-IsBytes = ground arith
