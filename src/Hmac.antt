-- ===== src/Hmac.antt =====
-- The request signature of firmware/esp32-aetus/components/aetus/aetus.c: `sha256_digest_parts`,
-- `sha256_hex`, `hmac_sha256_digest` and `hmac_signature_header`. The message digest functions of
-- mbedtls are a parameter; a code other than 0 is a failure.
pub mod Digest
pub mod Signature
use Prim.Native.Nat.{bit_xor}
use aetus.Base.{
  ℕ, Bool, true, false, ◌&&◌, Option, none, some, List, [], ◌∷◌, ◌++◌, map, ltb, ◌==◌,
  if◌then◌else◌, length, drop, replicate, codes,
}
use aetus.Esp.{◌>>=◌, ◌>>◌, Result, ok, err, esp_fail, invalid_size, guard}
use aetus.CString.{c_str}
use aetus.Hex.{bytes_to_hex}

-- `mbedtls_md_*` for SHA-256.
pub record Mbedtls : Type 1 where
  pub Context : Type 0
  pub info : Bool
  pub init : Context
  pub setup : Context → ℕ × Context
  pub starts : Context → ℕ × Context
  pub update : Context → List ℕ → ℕ × Context
  pub finish : Context → ℕ × List ℕ

-- `part != NULL && part_size > 0`
abbrev pub has_bytes : Option (List ℕ) → Bool
has_bytes none = false
has_bytes (some []) = false
has_bytes (some (_ ∷ _)) = true

abbrev pub bytes_of : Option (List ℕ) → List ℕ
bytes_of none = []
bytes_of (some bs) = bs

abbrev pub hmac_prefix : List ℕ
hmac_prefix =
    codes "AETUS-HMAC-SHA256-V1" ++ 10 ∷ codes "POST" ++ 10 ∷ codes "/v1/ingest" ++ 10 ∷ []

abbrev pub hmac_scheme : List ℕ
hmac_scheme = codes "hmac-sha256-v1"

module _ (md : Mbedtls) where
  open md use {Context, info, init, setup, starts, update, finish}

  -- `if (rc == 0) rc = mbedtls_md_starts(...)`
  start_if : ℕ × Context → ℕ × Context
  start_if (rc, c) = if rc == 0 then starts c else (rc, c)

  feed_if : ℕ × Context → Option (List ℕ) → ℕ × Context
  feed_if (rc, c) part = if rc == 0 && has_bytes part then update c (bytes_of part) else (rc, c)

  finish_if : ℕ × Context → ℕ × List ℕ
  finish_if (rc, c) = if rc == 0 then finish c else (rc, [])

  digest_of : ℕ × List ℕ → Result (List ℕ)
  digest_of (rc, digest) = if rc == 0 then ok digest else err esp_fail

  pub sha256_digest_parts : (part0 part1 part2 : Option (List ℕ)) → Result (List ℕ)
  unfolding start_if feed_if finish_if digest_of
  sha256_digest_parts part0 part1 part2 = do
    guard info esp_fail
    digest_of (finish_if (feed_if (feed_if (feed_if (start_if (setup init)) part0) part1) part2))

  pub sha256_hex : List ℕ → List ℕ → ℕ → Result (List ℕ)
  sha256_hex payload hex hex_size = do
    digest ← sha256_digest_parts (some payload) none none
    ok (bytes_to_hex digest 32 hex hex_size)

  -- A copy to the front of `uint8_t key_block[64] = {0}`.
  abbrev pub in_block : List ℕ → List ℕ
  in_block bs = bs ++ drop (length bs) (replicate 64 0)

  pub key_block : List ℕ → Result (List ℕ)
  key_block key =
      if ltb 64 (length key)
      then (do digest ← sha256_digest_parts (some key) none none; ok (in_block digest))
      else ok (in_block key)

  pub hmac_sha256_digest : (key message0 message1 : List ℕ) → Result (List ℕ)
  hmac_sha256_digest key message0 message1 = do
    block ← key_block key
    let ipad = map (λ (b : ℕ). bit_xor b 0x36) block
    let opad = map (λ (b : ℕ). bit_xor b 0x5c) block
    inner ← sha256_digest_parts (some ipad) (some message0) (some message1)
    sha256_digest_parts (some opad) (some inner) none

  -- The two `snprintf` calls fail when the text and its terminator do not fit.
  pub hmac_signature_header : (device_id device_token payload : List ℕ) → ℕ → Result (List ℕ)
  hmac_signature_header device_id device_token payload header_size = do
    body_sha256_hex ← sha256_hex payload (replicate 65 0) 65
    let signing_prefix = hmac_prefix ++ device_id ++ 10 ∷ []
    guard (ltb (length signing_prefix) 128) invalid_size
    digest ← hmac_sha256_digest device_token signing_prefix (c_str body_sha256_hex)
    let signature_hex = c_str (bytes_to_hex digest 32 (replicate 65 0) 65)
    let header = hmac_scheme ++ b'=' ∷ signature_hex
    guard (ltb (length header) header_size) invalid_size
    ok header
