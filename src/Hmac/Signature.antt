-- ===== src/Hmac/Signature.antt =====
-- The header that `hmac_signature_header` builds.
use aetus.Base.{
  ℕ, ◌*◌, ◌≤◌, ◌<◌, ◌≡◌, true, none, some, List, [], ◌∷◌, ◌++◌, arith, ltb, lt→ltb, length,
  length-append, replicate,
}
use mathlib.Core.List.{append-nil, append_assoc}
use aetus.Esp.{ok}
use aetus.CString.{c_str}
use aetus.Hex.{bytes_to_hex}
use aetus.Hex.Digits.{IsBytes, hex_digits, length-hex_digits, bytes_to_hex-digits}
use aetus.Hmac.{Mbedtls, hmac_prefix, hmac_scheme, sha256_hex, hmac_signature_header}
use aetus.Hmac.Digest.{IsSha256, hmac, sha256_digest_parts-hash, hmac_sha256_digest-hmac}

-- The message that the server signs too: the prefix, the device, and the digest of the body.
unfoldable pub signed_text : (List ℕ → List ℕ) → List ℕ → List ℕ → List ℕ
signed_text hash device_id payload = hmac_prefix ++ device_id ++ 10 ∷ hex_digits (hash payload)

module _ (md : Mbedtls) (hash : List ℕ → List ℕ) (sha : IsSha256 md hash) where
  open sha use {digest_size, digest_bytes}

  c_str-hex :
      (d : List ℕ)
      → length d ≡ 32
      → IsBytes d
      → c_str (bytes_to_hex d 32 (replicate 65 0) 65) ≡ hex_digits d
  c_str-hex d e b =
      let room : length d * 2 < length {A = ℕ} (replicate 65 0) = omega arith in
      rw e at (bytes_to_hex-digits d (replicate 65 0) b room)

  -- If the digest functions compute a hash, the device id has at most 63 bytes and the buffer at
  -- least 96, the signature header is the scheme, `=` and the hex digits of the HMAC, under the
  -- device token, of the prefix, the device id and the hex digest of the payload.
  pub hmac_signature_header-hmac :
      (device_id device_token payload : List ℕ) (header_size : ℕ)
      → length device_id ≤ 63
      → 96 ≤ header_size
      → hmac_signature_header md device_id device_token payload header_size
        ≡ ok (
            hmac_scheme
            ++ b'=' ∷ hex_digits (hmac hash device_token (signed_text hash device_id payload)))
  unfolding hmac_signature_header sha256_hex signed_text hmac
  hmac_signature_header-hmac device_id device_token payload header_size short big =
      let text = signed_text hash device_id payload in
      let tag = hmac hash device_token text in
      let fits : ltb (length (hmac_prefix ++ device_id ++ 10 ∷ [])) 128 ≡ true =
        lt→ltb _ _ (omega (arith, length-append {0} device_id (10 ∷ []))) in
      let room : ltb (length (hmac_scheme ++ b'=' ∷ hex_digits tag)) header_size ≡ true =
        lt→ltb _ _ (omega (arith, length-hex_digits tag, digest_size _)) in
      rw (sha256_digest_parts-hash md hash sha (some payload) none none) (
        simp append-nil (
          rw (c_str-hex (hash payload) (digest_size payload) (digest_bytes payload), fits)
            (rw (hmac_sha256_digest-hmac md hash sha device_token _ _)
              (simp append_assoc (rw (c_str-hex tag (digest_size _) (digest_bytes _), room))))))
