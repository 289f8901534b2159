-- ===== src/Hmac/Digest.antt =====
-- `hmac_sha256_digest` computes HMAC of RFC 2104 over the hash that mbedtls computes.
use Prim.Native.Nat.{bit_xor}
use aetus.Base.{
  ℕ, zero, suc, ◌-◌, ◌≡◌, refl, true, Option, none, some, List, [], ◌∷◌, ◌++◌, map, arith, ltb,
  if◌then◌else◌, length, drop, replicate,
}
use mathlib.Core.List.{append-nil, append_assoc}
use aetus.Esp.{ok}
use aetus.Hmac.{
  Mbedtls, bytes_of, start_if, feed_if, finish_if, digest_of, sha256_digest_parts, key_block,
  hmac_sha256_digest,
}
use aetus.Hex.Digits.{IsBytes}

-- What the firmware relies on: no call fails, and a context digests, as SHA-256 does, the bytes
-- that it was updated with since it was started. `Absorbed c bs` relates a context to those bytes.
pub record IsSha256 (md : Mbedtls) (hash : List ℕ → List ℕ) : Type 1 where
  pub Absorbed : md.Context → List ℕ → Type 0
  pub available : md.info ≡ true
  pub setup_ok : (md.setup md.init).0 ≡ 0
  pub starts_ok : (c : md.Context) → (md.starts c).0 ≡ 0
  pub starts_empty : (c : md.Context) → Absorbed (md.starts c).1 []
  pub update_ok : (c : md.Context) (p : List ℕ) → (md.update c p).0 ≡ 0
  pub update_more :
      (c : md.Context) (bs p : List ℕ) → Absorbed c bs → Absorbed (md.update c p).1 (bs ++ p)
  pub finish_ok : (c : md.Context) → (md.finish c).0 ≡ 0
  pub finish_hash : (c : md.Context) (bs : List ℕ) → Absorbed c bs → (md.finish c).1 ≡ hash bs
  pub digest_size : (bs : List ℕ) → length (hash bs) ≡ 32
  pub digest_bytes : (bs : List ℕ) → IsBytes (hash bs)

-- HMAC as RFC 2104 defines it, for blocks of 64 bytes.
unfoldable pub pad_key : (List ℕ → List ℕ) → List ℕ → List ℕ
pad_key hash key =
    let k = if ltb 64 (length key) then hash key else key in k ++ replicate (64 - length k) 0

unfoldable pub hmac : (List ℕ → List ℕ) → List ℕ → List ℕ → List ℕ
hmac hash key message =
    let k = pad_key hash key in
    hash (map (λ b. bit_xor b 0x5c) k ++ hash (map (λ b. bit_xor b 0x36) k ++ message))

drop-replicate : (n k : ℕ) → drop k (replicate {A = ℕ} n 0) ≡ replicate (n - k) 0
drop-replicate zero zero = refl
drop-replicate zero (suc k) = let e : zero - suc k ≡ 0 = omega arith in rw e
drop-replicate (suc n) zero = let e : suc n - zero ≡ suc n = omega arith in rw e
drop-replicate (suc n) (suc k) =
    let e : suc n - suc k ≡ n - k = omega arith in rw (drop-replicate n k, e)

module _ (md : Mbedtls) (hash : List ℕ → List ℕ) (sha : IsSha256 md hash) where
  open sha use {Absorbed}

  -- A context that has absorbed `bs`, with no failure so far.
  abbrev Fed : ℕ × md.Context → List ℕ → Type 0
  Fed (rc, c) bs = (rc ≡ 0) × Absorbed c bs

  start_if-Fed : (s : ℕ × md.Context) → s.0 ≡ 0 → Fed (start_if md s) []
  unfolding start_if
  start_if-Fed (rc, c) e = rw e (sha.starts_ok c, sha.starts_empty c)

  feed_if-Fed :
      (s : ℕ × md.Context) (bs : List ℕ) (part : Option (List ℕ))
      → Fed s bs
      → Fed (feed_if md s part) (bs ++ bytes_of part)
  unfolding feed_if
  feed_if-Fed (rc, c) bs none (e, a) = rw (e, append-nil) (refl, a)
  feed_if-Fed (rc, c) bs (some []) (e, a) = rw (e, append-nil) (refl, a)
  feed_if-Fed (rc, c) bs (some (b ∷ p)) (e, a) =
      rw e (sha.update_ok c (b ∷ p), sha.update_more c bs (b ∷ p) a)

  digest-Fed :
      (s : ℕ × md.Context) (bs : List ℕ) → Fed s bs → digest_of md (finish_if md s) ≡ ok (hash bs)
  unfolding digest_of finish_if
  digest-Fed (rc, c) bs (e, a) = rw (e, sha.finish_ok c, sha.finish_hash c bs a)

  -- The digest is of the three parts one after the other; a part that is `NULL` or empty adds none.
  pub sha256_digest_parts-hash :
      (p0 p1 p2 : Option (List ℕ))
      → sha256_digest_parts md p0 p1 p2 ≡ ok (hash (bytes_of p0 ++ bytes_of p1 ++ bytes_of p2))
  unfolding sha256_digest_parts
  sha256_digest_parts-hash p0 p1 p2 = rw sha.available (
      digest-Fed _ _ (
        feed_if-Fed _ _ p2
          (feed_if-Fed _ _ p1 (feed_if-Fed _ [] p0 (start_if-Fed _ sha.setup_ok)))))

  key_block-pad_key : (key : List ℕ) → key_block md key ≡ ok (pad_key hash key)
  unfolding key_block pad_key
  key_block-pad_key key =
      rw
        (
          sha256_digest_parts-hash (some key) none none,
          append-nil,
          append-nil,
          drop-replicate 64 (length key),
          drop-replicate 64 (length (hash key)),
        )
        (ground arith)

  -- If the digest functions compute a hash, the digest is the HMAC of RFC 2104, for that hash, of
  -- the two messages one after the other; a key of more than 64 bytes is hashed first.
  pub hmac_sha256_digest-hmac :
      (key message0 message1 : List ℕ)
      → hmac_sha256_digest md key message0 message1 ≡ ok (hmac hash key (message0 ++ message1))
  unfolding hmac_sha256_digest hmac
  hmac_sha256_digest-hmac key message0 message1 = rw (key_block-pad_key key) (
      rw (sha256_digest_parts-hash _ (some message0) (some message1))
        (rw (sha256_digest_parts-hash _ (some _) none) (simp (append-nil, append_assoc))))
