-- ===== src/Hex.antt =====
-- `bytes_to_hex` of firmware/esp32-aetus/components/aetus/aetus.c. The loop over the index writes
-- two digits a round; here it walks the bytes and counts the index along.
pub mod Digits
use aetus.Base.{ℕ, ◌+◌, ◌*◌, ◌/◌, ◌%◌, List, [], ◌∷◌, ltb, if◌then◌else◌, get_or, set, take}

-- `"0123456789abcdef"`
abbrev pub digits : List ℕ
digits =
    b'0' ∷ b'1' ∷ b'2' ∷ b'3' ∷ b'4' ∷ b'5' ∷ b'6' ∷ b'7' ∷ b'8' ∷ b'9' ∷ b'a' ∷ b'b' ∷ b'c' ∷ b'd'
    ∷ b'e' ∷ b'f' ∷ []

abbrev pub digit : ℕ → ℕ
digit d = get_or digits d 0

-- From round `index` on: `hex[2 * index]` and the byte behind it, then the terminator.
unfoldable pub hex_loop : List ℕ → ℕ → List ℕ → List ℕ
hex_loop [] index hex = set hex (index * 2) 0
hex_loop (b ∷ bs) index hex =
    hex_loop bs (index + 1)
      (set (set hex (index * 2) (digit (b / 16))) (index * 2 + 1) (digit (b % 16)))

unfoldable pub bytes_to_hex : List ℕ → ℕ → List ℕ → ℕ → List ℕ
unfolding hex_loop
bytes_to_hex bytes byte_count hex hex_size =
    if ltb hex_size (byte_count * 2 + 1)
    then (if ltb 0 hex_size then set hex 0 0 else hex)
    else hex_loop (take byte_count bytes) 0 hex
