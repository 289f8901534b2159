-- ===== src/Hex/Digits.antt =====
-- The text that `bytes_to_hex` writes, and that it can be read back.
use aetus.Base.{
  ℕ, suc, ◌+◌, ◌-◌, ◌*◌, ◌/◌, ◌%◌, ◌≤◌, ◌<◌, ◌≡◌, refl, ap, sym, ◌∙◌, true, false, List, [], ◌∷◌,
  ◌++◌, arith, ltb, ltb→lt, all_below, all_below_at, ◌==◌, ==_iff, if◌then◌else◌, length, set, drop,
  take_all, length-append, All,
}
use mathlib.Core.List.{append_assoc}
use aetus.CString.{c_str, IsText}
use aetus.Hex.{digit, hex_loop, bytes_to_hex}

-- The specification: two lower-case digits for each byte, the high half first.
unfoldable pub hex_digits : List ℕ → List ℕ
hex_digits [] = []
hex_digits (b ∷ bs) = digit (b / 16) ∷ digit (b % 16) ∷ hex_digits bs

abbrev pub IsBytes : List ℕ → Type 0
IsBytes bs = All (λ b. b < 256) bs

pub length-hex_digits : (bs : List ℕ) → length (hex_digits bs) ≡ length bs * 2
unfolding hex_digits
length-hex_digits [] = refl
length-hex_digits (b ∷ bs) = omega (arith, length-hex_digits bs)

set-append : (pre post : List ℕ) (x v : ℕ) → set (pre ++ x ∷ post) (length pre) v ≡ pre ++ v ∷ post
set-append [] post x v = refl
set-append (p ∷ pre) post x v = ap (◌∷◌ p) (set-append pre post x v)

set-append_next :
    (pre post : List ℕ) (x y v : ℕ)
    → set (pre ++ x ∷ y ∷ post) (length pre + 1) v ≡ pre ++ x ∷ v ∷ post
set-append_next [] post x y v = refl
set-append_next (p ∷ pre) post x y v =
    let e : length (p ∷ pre) + 1 ≡ suc (length pre + 1) = omega arith in
    rw e (ap (◌∷◌ p) (set-append_next pre post x y v))

-- What the loop has written stays; behind it come the digits, the terminator and the old bytes.
hex_loop-digits :
    (bs : List ℕ) (i : ℕ) (pre rest : List ℕ)
    → length pre ≡ i * 2
    → length bs * 2 < length rest
    → hex_loop bs i (pre ++ rest) ≡ pre ++ hex_digits bs ++ 0 ∷ drop (length bs * 2 + 1) rest
unfolding hex_loop hex_digits
hex_loop-digits bs i pre [] e h = absurd (omega arith)
hex_loop-digits [] i pre (r ∷ rest) e h =
    rw (← e) (set-append pre rest r 0 ∙ sym (append_assoc pre [] (0 ∷ rest)))
hex_loop-digits (b ∷ bs) i pre (r ∷ []) e h = absurd (omega arith)
hex_loop-digits (b ∷ bs) i pre (r ∷ s ∷ rest) e h =
    let next =
      hex_loop-digits bs (i + 1) (pre ++ digit (b / 16) ∷ digit (b % 16) ∷ []) rest
        (omega (arith, length-append {0} pre (digit (b / 16) ∷ digit (b % 16) ∷ [])))
        (omega arith) in
    let two : suc (length bs) * 2 + 1 ≡ suc (suc (length bs * 2 + 1)) = omega arith in
    rw
      (
        two,
        ← e,
        set-append pre (s ∷ rest) r (digit (b / 16)),
        set-append_next pre rest (digit (b / 16)) s (digit (b % 16)),
      )
      (simp append_assoc (simp append_assoc at next))

c_str-text : (s rest : List ℕ) → IsText s → c_str (s ++ 0 ∷ rest) ≡ s
unfolding c_str
c_str-text [] rest t = refl
c_str-text (c ∷ s) rest t = ground (arith, c_str-text s rest t.1)

digits_pos : all_below 16 (λ x. ltb 0 (digit x)) ≡ true
unfolding all_below
digits_pos = refl

digit-pos : (d : ℕ) → d < 16 → 0 < digit d
digit-pos d h = ltb→lt 0 (digit d) (all_below_at 16 d _ h digits_pos)

hex_digits-IsText : (bs : List ℕ) → IsBytes bs → IsText (hex_digits bs)
unfolding hex_digits
hex_digits-IsText [] h = tt
hex_digits-IsText (b ∷ bs) h =
    (digit-pos (b / 16) (omega arith), (digit-pos (b % 16) (omega arith), hex_digits-IsText bs h.1))

-- Into an array with room for them, `bytes_to_hex` writes the digits of all the bytes as a
-- terminated string.
pub bytes_to_hex-digits :
    (bs hex : List ℕ)
    → IsBytes bs
    → length bs * 2 < length hex
    → c_str (bytes_to_hex bs (length bs) hex (length hex)) ≡ hex_digits bs
unfolding bytes_to_hex
bytes_to_hex-digits bs hex h room =
    let fits : ltb (length hex) (length bs * 2 + 1) ≡ false = ground arith in
    rw (fits, take_all (length bs) bs (omega arith), hex_loop-digits bs 0 [] hex refl room)
      (c_str-text (hex_digits bs) _ (hex_digits-IsText bs h))

-- Reading digits back, in pairs.
abbrev undigit : ℕ → ℕ
undigit c = if ltb c b'a' then c - b'0' else c - b'a' + 10

unfoldable pub read_hex : List ℕ → List ℕ
read_hex [] = []
read_hex (c ∷ []) = []
read_hex (c ∷ d ∷ rest) = (undigit c * 16 + undigit d) ∷ read_hex rest

undigits : all_below 16 (λ x. undigit (digit x) == x) ≡ true
unfolding all_below
undigits = refl

undigit-digit : (d : ℕ) → d < 16 → undigit (digit d) ≡ d
undigit-digit d h = (==_iff _ d).0 (all_below_at 16 d _ h undigits)

pub read_hex-hex_digits : (bs : List ℕ) → IsBytes bs → read_hex (hex_digits bs) ≡ bs
unfolding read_hex hex_digits
read_hex-hex_digits [] h = refl
read_hex-hex_digits (b ∷ bs) h =
    rw
      (
        undigit-digit (b / 16) (omega arith),
        undigit-digit (b % 16) (omega arith),
        read_hex-hex_digits bs h.1,
      )
      (ap (λ x. x ∷ bs) (omega arith))

-- Bytes that `bytes_to_hex` writes into an array with room for them can be read back from the
-- string.
pub read_hex-bytes_to_hex :
    (bs hex : List ℕ)
    → IsBytes bs
    → length bs * 2 < length hex
    → read_hex (c_str (bytes_to_hex bs (length bs) hex (length hex))) ≡ bs
read_hex-bytes_to_hex bs hex h room =
    rw (bytes_to_hex-digits bs hex h room) (read_hex-hex_digits bs h)

-- Into one that is too small it writes the empty string.
pub bytes_to_hex-small :
    (bs hex : List ℕ)
    → 0 < length hex
    → length hex ≤ length bs * 2
    → c_str (bytes_to_hex bs (length bs) hex (length hex)) ≡ []
unfolding bytes_to_hex c_str
bytes_to_hex-small bs [] pos small = absurd (omega arith)
bytes_to_hex-small bs (c ∷ hex) pos small = ground arith
