-- ===== src/Tests/Clocks.antt =====
-- The clock set to the start of 2024, the URL that it is asked at, and an answer in two pieces.
use aetus.Base.{ℕ, List, drop, ◌-◌, ◌%◌, ◌≡◌, refl, true, some, [], ◌∷◌, ◌++◌, arith, take, codes}
use aetus.Esp.{ok, esp_ok}
use aetus.Clock.{
  TimeVal, collect_http_body, set_rtc_from_unix_time_ns, rtc_timestamp_ns, resolve_time_url,
  time_path,
}
use aetus.Clock.Body.{collect_all, concat}
use aetus.Clock.Answer.{time_sync}
use aetus.Clock.Fetch.{
  TimeClient, time_request, time_of_answer, parse_unix_time_ns, fetch_server_time_ns, strstr,
  strchr, skip_blanks, sync_rtc,
}
use aetus.Clock.Sync.{IsAnswered, sync_rtc-time_sync}
use aetus.CString.{c_str, ends_with}
use aetus.CString.Fits.{nonzero-IsText}
use aetus.Decimal.{print, strto, skip_space, read_digits}
use aetus.Clock.Url.{resolve_time_url-sibling}
use aetus.Tests.Toys.{list_queue, home_config, home_ctx}

abbrev set_time : TimeVal
set_time = record { tv_sec = 1704067200; tv_usec = 123456 }

sets : set_rtc_from_unix_time_ns true 1704067200123456789 ≡ ok set_time
unfolding set_rtc_from_unix_time_ns
sets = refl

-- The answer of the server in two pieces, for the start of 2024.
abbrev answer_rest : List ℕ
answer_rest = codes ",\"source\":\"ingest-api\"}"

abbrev time_client : TimeClient
time_client = record {
  client = true;
  perform = λ request. record {
    code = esp_ok;
    status = 200;
    pieces =
        take 20 (time_sync 1704067200123456789 answer_rest)
        ∷ drop 20 (time_sync 1704067200123456789 answer_rest)
        ∷ [];
  };
}

home-IsAnswered :
    IsAnswered
      (time_client.perform (time_request home_config (codes "http://host" ++ time_path)))
      (time_sync 1704067200123456789 answer_rest)
unfolding time_sync print concat
home-IsAnswered = record {
  code = refl;
  status = (omega arith, omega arith);
  whole = refl;
  fits = omega arith;
}

sync_rtc-time_sync_example :
    (tv : TimeVal) × (sync_rtc list_queue esp_ok time_client true home_ctx ≡ ok tv)
    × (rtc_timestamp_ns (some tv) ≡ ok (1704067200123456789 - 1704067200123456789 % 1000))
sync_rtc-time_sync_example =
    sync_rtc-time_sync list_queue home_ctx time_client (record { depth = 4; items = [] })
      (codes "http://host" ++ time_path) 1704067200123456789 answer_rest refl
      (resolve_time_url-sibling home_config (codes "http://host") 160 refl refl (omega arith)) refl
      home-IsAnswered (nonzero-IsText answer_rest refl) (omega arith) (omega arith)

home_synced : sync_rtc list_queue esp_ok time_client true home_ctx ≡ ok set_time
unfolding sync_rtc fetch_server_time_ns resolve_time_url ends_with time_of_answer parse_unix_time_ns
    set_rtc_from_unix_time_ns collect_all collect_http_body time_sync print strstr strchr
    skip_blanks strto skip_space read_digits c_str
home_synced = refl
