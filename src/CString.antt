-- ===== src/CString.antt =====
-- The string helpers of firmware/esp32-aetus/components/aetus/aetus.c: `copy_string`,
-- `string_required_fits`, `string_fits` and `ends_with`. A `const char *` is an option of the bytes
-- before its terminator, `none` for `NULL`; a `char` array is the list of all its bytes.
pub mod Copy
pub mod Fits
pub mod Suffix
use aetus.Base.{
  ℕ, zero, suc, ◌-◌, ◌<◌, min, Bool, true, false, not, ◌&&◌, Option, none, some, List, [], ◌∷◌, ltb,
  leb, ◌==◌, if◌then◌else◌, length, set, drop, All, bytes_eq,
}

abbrev pub CStr : Type 0
CStr = Option (List ℕ)

-- No byte of a string is its terminator.
abbrev pub IsText : List ℕ → Type 0
IsText s = All (λ c. 0 < c) s

-- The string that an array holds.
unfoldable pub c_str : List ℕ → List ℕ
c_str [] = []
c_str (c ∷ cs) = if c == 0 then [] else c ∷ c_str cs

-- `value[0] == '\0'`
abbrev pub is_empty : List ℕ → Bool
is_empty [] = true
is_empty (_ ∷ _) = false

-- The bytes of a `char` array start with its terminator.
abbrev pub starts_nul : List ℕ → Bool
starts_nul [] = true
starts_nul (c ∷ _) = c == 0

-- The C library's `strncpy`: at most `n` bytes, and zeros up to `n`.
unfoldable pub strncpy : List ℕ → List ℕ → ℕ → List ℕ
strncpy target s zero = target
strncpy [] s (suc n) = []
strncpy (t ∷ ts) [] (suc n) = 0 ∷ strncpy ts [] n
strncpy (t ∷ ts) (c ∷ cs) (suc n) = c ∷ strncpy ts cs n

unfoldable pub copy_string : List ℕ → ℕ → CStr → List ℕ
unfolding strncpy
copy_string target target_size none = if target_size == 0 then target else set target 0 0
copy_string target target_size (some source) =
    if target_size == 0
    then target
    else set (strncpy target source (target_size - 1)) (target_size - 1) 0

-- The C library's `strnlen`.
abbrev pub strnlen : List ℕ → ℕ → ℕ
strnlen s n = min (length s) n

unfoldable pub string_required_fits : CStr → ℕ → Bool
string_required_fits none max_len = false
string_required_fits (some value) max_len = not (is_empty value) && leb (length value) max_len

unfoldable pub string_fits : CStr → ℕ → Bool
string_fits none target_size = true
string_fits (some value) target_size =
    if target_size == 0 then false else ltb (strnlen value target_size) target_size

unfoldable pub ends_with : CStr → CStr → Bool
ends_with none suffix = false
ends_with (some value) none = false
ends_with (some value) (some suffix) =
    leb (length suffix) (length value)
    && bytes_eq (drop (length value - length suffix) value) suffix
