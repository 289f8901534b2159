-- ===== src/Tests/Requests.antt =====
-- Signatures with a digest that counts bytes, and a post.
use aetus.Base.{
  ℕ, zero, suc, ◌%◌, ◌≡◌, ◌<◌, ◌≤◌, ◌↔◌, refl, true, [], ◌∷◌, ◌++◌, arith, length, length-replicate,
  replicate, codes,
}
use aetus.Esp.{esp_ok, ok}
use aetus.Hex.Digits.{IsBytes, hex_digits}
use aetus.Hmac.{hmac_signature_header, hmac_scheme}
use aetus.Hmac.Digest.{IsSha256, hmac}
use aetus.Hmac.Signature.{signed_text, hmac_signature_header-hmac}
use aetus.Post.{Request, HttpAnswer, post_request, post_payload, bearer_header}
use aetus.Post.Outcome.{post_payload_iff, bearer_header_iff}
use aetus.Tests.Toys.{count_md, count_hash, home_config}

replicate-IsBytes : (n b : ℕ) → b < 256 → IsBytes (replicate n b)
replicate-IsBytes zero b lt = tt
replicate-IsBytes (suc n) b lt = (lt, replicate-IsBytes n b lt)

count_md-IsSha256 : IsSha256 count_md count_hash
count_md-IsSha256 = record {
  Absorbed = λ c bs. c ≡ bs;
  available = refl;
  setup_ok = refl;
  starts_ok = λ c. refl;
  starts_empty = λ c. refl;
  update_ok = λ c p. refl;
  update_more = λ c bs p e. rw e;
  finish_ok = λ c. refl;
  finish_hash = λ c bs e. rw e;
  digest_size = λ bs. length-replicate 32 (length bs % 256);
  digest_bytes = λ bs. replicate-IsBytes 32 (length bs % 256) (omega arith);
}

hmac_signature_header-hmac_example :
    hmac_signature_header count_md (codes "dev-1") (codes "token") (1 ∷ 2 ∷ []) 96
    ≡ ok (
        hmac_scheme
        ++ b'='
          ∷ hex_digits (
              hmac count_hash
                (codes "token")
                (signed_text count_hash (codes "dev-1") (1 ∷ 2 ∷ []))))
hmac_signature_header-hmac_example =
    hmac_signature_header-hmac count_md count_hash count_md-IsSha256 (codes "dev-1") (codes "token")
      (1 ∷ 2 ∷ []) 96 (omega arith) (omega arith)

abbrev created : HttpAnswer
created = record { client = true; code = esp_ok; status = 201 }

abbrev home_request : Request
home_request = record {
  url = home_config.ingest_url;
  headers =
      (codes "Content-Type", codes "application/x-protobuf")
      ∷ (codes "X-Device-Id", codes "dev-1")
      ∷ (codes "Authorization", codes "Bearer token")
      ∷ [];
  post_field = 1 ∷ 2 ∷ [];
}

home_signed : post_request count_md home_config (1 ∷ 2 ∷ []) ≡ ok home_request
unfolding post_request bearer_header
home_signed = refl

post_payload_iff_example : (post_payload count_md home_config (1 ∷ 2 ∷ []) created ≡ esp_ok) ↔ (
    (created.client ≡ true)
    × (created.code ≡ esp_ok)
    × (200 ≤ created.status)
    × (created.status < 300))
post_payload_iff_example =
    post_payload_iff count_md home_config (1 ∷ 2 ∷ []) created home_request home_signed

bearer_header_iff_example :
    (bearer_header (codes "token") ≡ codes "Bearer " ++ codes "token")
    ↔ (length (codes "token") ≤ 120)
bearer_header_iff_example = bearer_header_iff (codes "token")
