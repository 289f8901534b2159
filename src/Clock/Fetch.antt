-- ===== src/Clock/Fetch.antt =====
-- The time of the server in firmware/esp32-aetus/components/aetus/aetus.c: the request
-- (`fetch_server_time_ns`), the answer (`parse_unix_time_ns`), and `aetus_sync_rtc`. What the HTTP
-- client answers to a request is a parameter.
use aetus.Base.{
  ℕ, ◌∷◌, Bool, true, false, not, ◌&&◌, ◌||◌, Option, none, some, List, [], ◌==◌, ltb, leb,
  if◌then◌else◌, length, drop, codes,
}
use aetus.Types.{Config, u64_mod}
use aetus.Esp.{
  EspErr, esp_fail, no_mem, invalid_state, invalid_response, Result, ok, err, guard, check, or_err,
  is_some, ◌>>=◌, ◌>>◌,
}
use aetus.CString.{c_str}
use aetus.Decimal.{Reading, strto}
use aetus.Rtos.{RtosQueue}
use aetus.Config.{Ctx}
use aetus.Post.{text_of, bearer_header}
use aetus.Clock.{TimeVal, resolve_time_url, set_rtc_from_unix_time_ns}
use aetus.Clock.Body.{collect_all}

-- The C library's `strstr` and `strchr`: what is behind the place that they find.
abbrev pub starts_with : List ℕ → List ℕ → Bool
starts_with [] s = true
starts_with (k ∷ ks) [] = false
starts_with (k ∷ ks) (c ∷ cs) = k == c && starts_with ks cs

unfoldable pub strstr : List ℕ → List ℕ → Option (List ℕ)
strstr [] key = if starts_with key [] then some [] else none
strstr (c ∷ cs) key =
    let rest = strstr cs key in if starts_with key (c ∷ cs) then some (c ∷ cs) else rest

unfoldable pub strchr : List ℕ → ℕ → Option (List ℕ)
strchr [] wanted = none
strchr (c ∷ cs) wanted = let rest = strchr cs wanted in if c == wanted then some (c ∷ cs) else rest

abbrev pub time_key : List ℕ
time_key = codes "\"unix_time_ns\""

abbrev pub is_blank : ℕ → Bool
is_blank c = c == 32 || c == 9 || c == 13 || c == 10

unfoldable pub skip_blanks : List ℕ → List ℕ
skip_blanks [] = []
skip_blanks (c ∷ cs) = let rest = skip_blanks cs in if is_blank c then rest else c ∷ cs

abbrev pub skip_quote : List ℕ → List ℕ
skip_quote [] = []
skip_quote (c ∷ cs) = if c == 34 then cs else c ∷ cs

abbrev pub read_value : Option Reading → Result ℕ
read_value none = err invalid_response
read_value (some r) = if r.out_of_range then err invalid_response else ok r.value

unfoldable pub parse_unix_time_ns : List ℕ → Result ℕ
unfolding strstr strchr skip_blanks
parse_unix_time_ns body = do
  found ← or_err (strstr body time_key) invalid_response
  colon ← or_err (strchr (drop (length time_key) found) 58) invalid_response
  read_value (strto u64_mod (skip_quote (skip_blanks (drop 1 colon))))

pub record TimeRequest : Type 0 where
  pub url : List ℕ
  pub device_id : List ℕ
  pub authorization : List ℕ

-- The code of `esp_http_client_perform`, the status, a negative one as a number above 2^31, and the
-- pieces of the answer that the handler was called with.
pub record TimeAnswer : Type 0 where
  pub code : EspErr
  pub status : ℕ
  pub pieces : List (List ℕ)

-- Whether `esp_http_client_init` returns a client, and what it answers.
pub record TimeClient : Type 0 where
  pub client : Bool
  pub perform : TimeRequest → TimeAnswer

-- `AETUS_TIME_RESPONSE_BUFFER_BYTES`
abbrev pub time_response_bytes : ℕ
time_response_bytes = 512

abbrev pub time_request : Config → List ℕ → TimeRequest
time_request config url = record {
  url = url;
  device_id = text_of config.device_id;
  authorization = bearer_header (text_of config.device_token);
}

-- The answer after the transfer.
unfoldable pub time_of_answer : TimeAnswer → Result ℕ
time_of_answer answer = do
  check answer.code
  guard (not (ltb answer.status 200 || leb 300 answer.status)) esp_fail
  let body =
      collect_all (record { text = []; capacity = time_response_bytes; overflow = false })
        answer.pieces
  guard (not body.overflow) no_mem
  parse_unix_time_ns (c_str body.text)

unfoldable pub fetch_server_time_ns : Config → TimeClient → Result ℕ
unfolding time_of_answer
fetch_server_time_ns config client = do
  url ← resolve_time_url config 160
  guard client.client esp_fail
  time_of_answer (client.perform (time_request config url))

-- What the clock is set to, for the result of `wifi_wait_connected_for` and for whether
-- `settimeofday` succeeds.
unfoldable pub sync_rtc :
    (rtos : RtosQueue) → EspErr → TimeClient → Bool → Ctx rtos → Result TimeVal
sync_rtc rtos connected client set_ok ctx = do
  guard (is_some ctx.queue) invalid_state
  check connected
  unix_time_ns ← fetch_server_time_ns ctx.config client
  set_rtc_from_unix_time_ns set_ok unix_time_ns
