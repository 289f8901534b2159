-- ===== src/Post/Outcome.antt =====
-- When `post_payload` succeeds, and the token that it sends.
use aetus.Base.{
  ℕ, ◌≤◌, ◌<◌, ◌≡◌, refl, ap, subst, ◌↔◌, true, Bool-cases, inl, inr, List, ◌++◌, arith, length,
  codes, take_all, length-append, length-take,
}
use aetus.Types.{Config}
use aetus.Esp.{
  EspErr, esp_ok, no_mem, invalid_arg, invalid_state, invalid_size, not_supported, timeout,
  invalid_response, nvs_no_free_pages, nvs_new_version_found, other, is_ok, esp_fail, ok,
}
use aetus.Hmac.{Mbedtls}
use aetus.Post.{Request, HttpAnswer, bearer_header, perform, post_request, post_payload}

is_ok_lem : (e : EspErr) → is_ok e ≡ true → e ≡ esp_ok
is_ok_lem esp_ok h = refl
is_ok_lem esp_fail h = cc
is_ok_lem no_mem h = cc
is_ok_lem invalid_arg h = cc
is_ok_lem invalid_state h = cc
is_ok_lem invalid_size h = cc
is_ok_lem not_supported h = cc
is_ok_lem timeout h = cc
is_ok_lem invalid_response h = cc
is_ok_lem nvs_no_free_pages h = cc
is_ok_lem nvs_new_version_found h = cc
is_ok_lem (other n) h = cc

sent :
    (md : Mbedtls) (answer : HttpAnswer) (request : Request)
    → answer.code ≡ esp_ok
    → 200 ≤ answer.status
    → answer.status < 300
    → perform md answer (ok request) ≡ esp_ok
sent md answer request c lo hi = rw c (ground arith)

unsent :
    (md : Mbedtls) (answer : HttpAnswer) (request : Request)
    → perform md answer (ok request) ≡ esp_ok
    → (answer.code ≡ esp_ok) × (200 ≤ answer.status) × (answer.status < 300)
unsent md answer request e = elim (Bool-cases (is_ok answer.code)) [
  | inl y ↦ (is_ok_lem answer.code y, ground arith, ground arith)
  | inr n ↦
      let c : answer.code ≡ esp_ok = ground arith in
      let y : is_ok answer.code ≡ true = ap is_ok c in absurd cc
]

-- When the request can be signed, a post succeeds exactly if there is a client, the exchange
-- succeeds and the status is from 200 to 299.
pub post_payload_iff :
    (md : Mbedtls) (config : Config) (payload : List ℕ) (answer : HttpAnswer) (request : Request)
    → post_request md config payload ≡ ok request
    → (post_payload md config payload answer ≡ esp_ok) ↔ (
        (answer.client ≡ true)
        × (answer.code ≡ esp_ok)
        × (200 ≤ answer.status)
        × (answer.status < 300))
unfolding post_payload
post_payload_iff md config payload answer request signed = (
  λ e.
      let c : answer.client ≡ true = ground arith in
      let here : perform md answer (post_request md config payload) ≡ esp_ok = ground arith in
      let (code, low, high) =
        unsent md answer request (subst (λ r. perform md answer r ≡ esp_ok) signed here) in
      (c, code, low, high),
  λ (c, r, lo, hi). rw (c, signed) (sent md answer request r lo hi),
)

-- A token is sent whole exactly if it has at most 120 bytes.
pub bearer_header_iff :
    (token : List ℕ) → (bearer_header token ≡ codes "Bearer " ++ token) ↔ (length token ≤ 120)
unfolding bearer_header
bearer_header_iff token =
    let whole = length-append {0} (codes "Bearer ") token in
    (
      λ e. omega (arith, ap length e, length-take {0} 127 (codes "Bearer " ++ token), whole),
      λ short. take_all 127 (codes "Bearer " ++ token) (omega (arith, whole)),
    )
