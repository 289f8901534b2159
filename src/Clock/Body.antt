-- ===== src/Clock/Body.antt =====
-- What is collected of an answer that comes in pieces.
use aetus.Base.{
  ℕ, ◌+◌, ◌-◌, ◌<◌, ◌≡◌, refl, sym, ap, ap₂, ◌≤◌, Bool-cases, inl, inr, take_all, ◌∙◌, Bool, false,
  some, List, [], ◌∷◌, ◌++◌, arith, leb, if◌then◌else◌, length, length-append, length-take, take,
  take-append, min,
}
use mathlib.Core.List.{append-nil, append_assoc}
use aetus.Clock.{HttpBody, collect_http_body}

-- An answer in pieces, collected one piece after the other.
unfoldable pub collect_all : HttpBody → List (List ℕ) → HttpBody
collect_all body [] = body
collect_all body (piece ∷ pieces) = collect_all (collect_http_body body (some piece)) pieces

unfoldable pub concat : List (List ℕ) → List ℕ
concat [] = []
concat (piece ∷ pieces) = piece ++ concat pieces

-- What a buffer holds of the bytes that came so far.
unfoldable pub held : ℕ → List ℕ → HttpBody
held capacity bytes = record {
  text = take (capacity - 1) bytes;
  capacity = capacity;
  overflow = leb capacity (length bytes);
}

body_of : ℕ → List ℕ → Bool → HttpBody
body_of c text overflow = record { text = text; capacity = c; overflow = overflow }

take-min : (n : ℕ) (xs : List ℕ) → take n xs ≡ take (min n (length xs)) xs
take-min n xs = elim (Bool-cases (leb (length xs) n)) [
  | inl y ↦
      let short : length xs ≤ n = ground arith in
      take_all n xs short ∙ sym (take_all (min n (length xs)) xs (omega arith))
  | inr y ↦ let long : n < length xs = ground arith in ap (λ k. take k xs) (omega arith)
]

-- The part of a piece that is kept.
kept_part :
    (c n : ℕ) (piece : List ℕ)
    → 0 < c
    → take
        (if leb c (min (c - 1) n + length piece) then c - min (c - 1) n - 1 else length piece)
        piece
      ≡ take (c - 1 - n) piece
kept_part c n piece pos = elim (Bool-cases (leb c (min (c - 1) n + length piece))) [
  | inl y ↦ rw y (ap (λ k. take k piece) (omega arith))
  | inr y ↦
      let fits : length piece ≤ c - 1 - n = ground arith in
      rw y (
        take_all (length piece) piece (omega arith)
        ∙ sym (take_all (c - 1 - n) piece (omega arith)))
]

collect-held :
    (c : ℕ) (bytes piece : List ℕ)
    → 0 < c
    → collect_http_body (held c bytes) (some piece) ≡ held c (bytes ++ piece)
unfolding collect_http_body held body_of
collect-held c bytes piece pos =
    let n = length-take {0} (c - 1) bytes in
    let m = length-append {0} bytes piece in
    rw
      (
        take-append (c - 1) (min (c - 1) (length bytes)) (c - 1 - length bytes) bytes piece refl
            refl,
        n,
        m,
      )
      (ap₂ (body_of c)
        (ap₂ (λ xs ys. xs ++ ys) (take-min (c - 1) bytes) (kept_part c (length bytes) piece pos))
        (ground arith))

collect_all-held :
    (c : ℕ) (bytes : List ℕ) (pieces : List (List ℕ))
    → 0 < c
    → collect_all (held c bytes) pieces ≡ held c (bytes ++ concat pieces)
unfolding collect_all concat
collect_all-held c bytes [] pos = ap (held c) (sym (append-nil bytes))
collect_all-held c bytes (piece ∷ pieces) pos =
    rw (collect-held c bytes piece pos, collect_all-held c (bytes ++ piece) pieces pos)
      (ap (held c) (append_assoc bytes piece (concat pieces)))

-- However an answer is cut into pieces, the buffer ends up with as many of its first bytes as leave
-- room for a terminator, and the overflow is noted exactly if that is not all of them.
pub collect_all_lem :
    (c : ℕ) (pieces : List (List ℕ))
    → 0 < c
    → collect_all (record { text = []; capacity = c; overflow = false }) pieces ≡ record {
      text = take (c - 1) (concat pieces);
      capacity = c;
      overflow = leb c (length (concat pieces));
    }
unfolding held body_of
collect_all_lem c pieces pos =
    let start : held c [] ≡ record { text = []; capacity = c; overflow = false } =
      ap₂ (body_of c) (take_all (c - 1) [] (omega arith)) (ground arith) in
    rw (sym start) (collect_all-held c [] pieces pos)
