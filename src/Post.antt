-- ===== src/Post.antt =====
-- `post_payload` of firmware/esp32-aetus/components/aetus/aetus.c without the hooks of the test
-- build: the request that it sends, and its result for what the HTTP client answers. The strings of
-- the configuration are not `NULL` once `aetus_start` has checked them.
pub mod Outcome
use aetus.Base.{
  ℕ, Bool, not, ◌||◌, none, some, List, [], ◌∷◌, ◌++◌, ltb, leb, if◌then◌else◌, take, codes,
}
use aetus.Types.{Config, AuthMode, hmac_sha256}
use aetus.Esp.{EspErr, esp_ok, esp_fail, is_ok, Result, ok, err, ◌>>=◌}
use aetus.CString.{CStr}
use aetus.Hmac.{Mbedtls, hmac_signature_header}

pub record Request : Type 0 where
  pub url : CStr
  pub headers : List (List ℕ × List ℕ)
  pub post_field : List ℕ

-- What the client does: whether `esp_http_client_init` returns a client, the code of
-- `esp_http_client_perform`, and the status, a negative one as a number above 2^31.
pub record HttpAnswer : Type 0 where
  pub client : Bool
  pub code : EspErr
  pub status : ℕ

abbrev pub text_of : CStr → List ℕ
text_of none = []
text_of (some s) = s

-- `snprintf` of a text into an array of `n + 1` bytes.
abbrev pub cut : ℕ → List ℕ → List ℕ
cut n s = take n s

unfoldable pub bearer_header : List ℕ → List ℕ
bearer_header token = cut 127 (codes "Bearer " ++ token)

module _ (md : Mbedtls) where
  abbrev auth_header : Config → List ℕ → AuthMode → Result (List ℕ × List ℕ)
  auth_header config payload hmac_sha256 = do
    signature ←
        hmac_signature_header md (text_of config.device_id) (text_of config.device_token) payload 96
    ok (codes "X-Aetus-Signature", signature)
  auth_header config payload _ =
      ok (codes "Authorization", bearer_header (text_of config.device_token))

  unfoldable pub post_request : Config → List ℕ → Result Request
  post_request config payload = do
    header ← auth_header config payload config.auth_mode
    ok (record {
      url = config.ingest_url;
      headers =
          (codes "Content-Type", codes "application/x-protobuf")
          ∷ (codes "X-Device-Id", text_of config.device_id)
          ∷ header
          ∷ [];
      post_field = payload;
    })

  abbrev pub status_result : ℕ → EspErr
  status_result status = if ltb status 200 || leb 300 status then esp_fail else esp_ok

  abbrev pub perform : HttpAnswer → Result Request → EspErr
  perform answer (err e) = e
  perform answer (ok request) =
      if not (is_ok answer.code) then answer.code else status_result answer.status

  unfoldable pub post_payload : Config → List ℕ → HttpAnswer → EspErr
  unfolding post_request
  post_payload config payload answer =
      if not answer.client then esp_fail else perform answer (post_request config payload)
