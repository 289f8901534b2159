-- ===== src/Clock/Sync.antt =====
-- The synchronisation of the clock with the server, from the request to the clock that is read.
use aetus.Base.{
  ℕ, ◌-◌, ◌/◌, ◌%◌, ◌≤◌, ◌<◌, ◌≡◌, refl, ap, ap₂, subst, ◌∙◌, Bool, true, false, ◌||◌, some, List,
  [], arith, ltb, leb, le→leb, length, take, take_all,
}
use aetus.Types.{Config, u64_mod, rtc_valid_after_unix_s}
use aetus.Esp.{
  EspErr, esp_ok, esp_fail, invalid_state, invalid_response, ok, check, guard-ok, >>-ok, >>=-ok,
  is_some, ok-injective,
}
use aetus.CString.{IsText}
use aetus.CString.Copy.{c_str-IsText}
use aetus.Rtos.{RtosQueue}
use aetus.Config.{Ctx}
use aetus.Clock.{TimeVal, HttpBody, resolve_time_url, set_rtc_from_unix_time_ns, rtc_timestamp_ns}
use aetus.Clock.Answer.{time_sync, parse-time_sync, time_sync-IsText}
use aetus.Clock.Body.{concat, collect_all, collect_all_lem}
use aetus.Clock.Fetch.{
  TimeClient, TimeAnswer, time_request, time_of_answer, parse_unix_time_ns, fetch_server_time_ns,
  sync_rtc,
}
use aetus.Clock.Rtc.{rtc_timestamp_ns-set_rtc}

-- An answer that is accepted and that the buffer holds.
pub record IsAnswered (answer : TimeAnswer) (bytes : List ℕ) : Type 0 where
  pub code : answer.code ≡ esp_ok
  pub status : (200 ≤ answer.status) × (answer.status < 300)
  pub whole : concat answer.pieces ≡ bytes
  pub fits : length bytes < 512

collected :
    (pieces : List (List ℕ)) (text : List ℕ)
    → concat pieces ≡ text
    → length text < 512
    → collect_all (record { text = []; capacity = 512; overflow = false }) pieces
      ≡ record { text = text; capacity = 512; overflow = false }
collected pieces text e lt =
    let body : List ℕ → Bool → HttpBody =
      λ t o. record { text = t; capacity = 512; overflow = o } in
    let room : leb 512 (length text) ≡ false = ground arith in
    collect_all_lem 512 pieces (omega arith)
    ∙ ap (λ t. body (take 511 t) (leb 512 (length t))) e
    ∙ ap₂ body (take_all 511 text (omega arith)) room

time_of_answer-time_sync :
    (answer : TimeAnswer) (n : ℕ) (rest : List ℕ)
    → IsAnswered answer (time_sync n rest)
    → IsText rest
    → n < u64_mod
    → time_of_answer answer ≡ ok n
unfolding time_of_answer
time_of_answer-time_sync answer n rest a text lt =
    let fine : (ltb answer.status 200 || leb 300 answer.status) ≡ false =
      ground (arith, a.status) in
    rw (a.code, fine, collected answer.pieces (time_sync n rest) a.whole a.fits)
      (ap parse_unix_time_ns (c_str-IsText (time_sync n rest) (time_sync-IsText n rest text))
        ∙ parse-time_sync n rest lt)

set_rtc-valid :
    (n : ℕ)
    → rtc_valid_after_unix_s ≤ n / 1000000000
    → set_rtc_from_unix_time_ns true n
      ≡ ok (record { tv_sec = n / 1000000000; tv_usec = n % 1000000000 / 1000 })
unfolding set_rtc_from_unix_time_ns
set_rtc-valid n h = rw (le→leb _ _ h) refl

fetched :
    (config : Config) (client : TimeClient) (url : List ℕ) (n : ℕ)
    → resolve_time_url config 160 ≡ ok url
    → client.client ≡ true
    → time_of_answer (client.perform (time_request config url)) ≡ ok n
    → fetch_server_time_ns config client ≡ ok n
unfolding fetch_server_time_ns
fetched config client url n resolves made answered = rw (resolves, made) answered

set_rtc-bounds :
    (set_ok : Bool) (n : ℕ) (tv : TimeVal)
    → set_rtc_from_unix_time_ns set_ok n ≡ ok tv
    → (rtc_valid_after_unix_s ≤ tv.tv_sec) × (tv.tv_usec < 1000000)
unfolding set_rtc_from_unix_time_ns
set_rtc-bounds set_ok n tv e =
    let g1 = guard-ok (leb rtc_valid_after_unix_s (n / 1000000000)) invalid_response e in
    let g2 = guard-ok set_ok esp_fail g1.1 in
    let same = ok-injective g2.1 in
    let valid : rtc_valid_after_unix_s ≤ n / 1000000000 = ground (arith, g1.0) in
    let usec : n % 1000000000 / 1000 < 1000000 = omega arith in
    subst (λ now. (rtc_valid_after_unix_s ≤ now.tv_sec) × (now.tv_usec < 1000000)) same
      (valid, usec)

fetch-client :
    (config : Config) (client : TimeClient) {n : ℕ}
    → fetch_server_time_ns config client ≡ ok n
    → client.client ≡ true
unfolding fetch_server_time_ns
fetch-client config client e =
    let (url, resolves, rest) = >>=-ok (resolve_time_url config 160) e in
    (guard-ok client.client esp_fail rest).0

module _ (rtos : RtosQueue) where
  synced :
      (ctx : Ctx rtos) (client : TimeClient) (q : rtos.Queue) (n : ℕ)
      → ctx.queue ≡ some q
      → fetch_server_time_ns ctx.config client ≡ ok n
      → sync_rtc rtos esp_ok client true ctx ≡ set_rtc_from_unix_time_ns true n
  unfolding sync_rtc
  synced ctx client q n e f = rw (e, f) refl

  -- With the Wi-Fi connected and a client that gets the time `n` of the server in an answer of less
  -- than 512 bytes, however it is cut into pieces, the clock is set, and gives `n` cut to microseconds.
  pub sync_rtc-time_sync :
      (ctx : Ctx rtos) (client : TimeClient) (q : rtos.Queue) (url : List ℕ) (n : ℕ) (rest : List ℕ)
      → ctx.queue ≡ some q
      → resolve_time_url ctx.config 160 ≡ ok url
      → client.client ≡ true
      → IsAnswered (client.perform (time_request ctx.config url)) (time_sync n rest)
      → IsText rest
      → n < u64_mod
      → rtc_valid_after_unix_s ≤ n / 1000000000
      → (tv : TimeVal) × (sync_rtc rtos esp_ok client true ctx ≡ ok tv)
        × (rtc_timestamp_ns (some tv) ≡ ok (n - n % 1000))
  sync_rtc-time_sync ctx client q url n rest started resolves made a text lt valid =
      let tv : TimeVal = record { tv_sec = n / 1000000000; tv_usec = n % 1000000000 / 1000 } in
      let sets = set_rtc-valid n valid in
      let answered =
        time_of_answer-time_sync (client.perform (time_request ctx.config url)) n rest a text lt in
      (
        tv,
        synced ctx client q n started (fetched ctx.config client url n resolves made answered)
            ∙ sets,
        rtc_timestamp_ns-set_rtc n true tv lt sets,
      )

  -- A clock that a synchronisation sets is not before the first valid time, in a component that was
  -- started, was connected, and has a client.
  pub sync_rtc-valid :
      (ctx : Ctx rtos) (client : TimeClient) (connected : EspErr) (set_ok : Bool) (tv : TimeVal)
      → sync_rtc rtos connected client set_ok ctx ≡ ok tv
      → (is_some ctx.queue ≡ true)
        × (check connected ≡ ok tt)
        × (client.client ≡ true)
        × (rtc_valid_after_unix_s ≤ tv.tv_sec)
        × (tv.tv_usec < 1000000)
  unfolding sync_rtc
  sync_rtc-valid ctx client connected set_ok tv e =
      let g1 = guard-ok (is_some ctx.queue) invalid_state e in
      let g2 = >>-ok (check connected) g1.1 in
      let (n, fetches, sets) = >>=-ok (fetch_server_time_ns ctx.config client) g2.1 in
      let (valid, usec) = set_rtc-bounds set_ok n tv sets in
      (g1.0, g2.0, fetch-client ctx.config client fetches, valid, usec)
