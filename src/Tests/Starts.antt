-- ===== src/Tests/Starts.antt =====
-- A start that fails for want of an event group, and one that succeeds.
use aetus.Base.{◌≡◌, ◌≢◌, ◌↔◌, refl, true, false, none, some, [], replicate}
use aetus.Types.{zero_stats}
use aetus.Esp.{esp_ok, invalid_state, ok}
use aetus.CString.{string_required_fits, string_fits}
use aetus.Config.{Ctx, Boot, start, start_checks, update_checks}
use aetus.Config.Accepted.{IsAcceptable, start_checks-update_checks, update_checks_iff}
use aetus.Config.Started.{start-stuck}
use aetus.Rtos.Bounded.{Bounded}
use aetus.Tests.Toys.{list_queue, home_config}

start_checks-update_checks_example : start_checks home_config ≡ update_checks home_config
start_checks-update_checks_example = start_checks-update_checks home_config

update_checks_iff_example : (update_checks home_config ≡ ok tt) ↔ IsAcceptable home_config
update_checks_iff_example = update_checks_iff home_config

home-passes : update_checks home_config ≡ ok tt
unfolding update_checks string_required_fits string_fits
home-passes = refl

pub home-IsAcceptable : IsAcceptable home_config
home-IsAcceptable = (update_checks_iff home_config).0 home-passes

abbrev stopped : Ctx list_queue
stopped = record {
  config = home_config;
  queue = none;
  events = false;
  upload_timer = none;
  sequence = 0;
  boot_id = replicate 32 0;
  wifi_started = false;
  wifi_connected = false;
  stats = zero_stats;
}

abbrev good_boot : Boot
good_boot = record {
  random = 7;
  to_ticks = λ ms. ms;
  event_group = true;
  led = esp_ok;
  timer = true;
  task = true;
  timer_start = true;
}

abbrev no_events : Boot
no_events = record good_boot { event_group = false }

abbrev four_slots : Bounded
four_slots = record { depth = 4; items = [] }

no_events_fails : (start list_queue (some home_config) no_events stopped).0 ≢ esp_ok
unfolding start start_checks string_required_fits string_fits
no_events_fails e = cc

start-stuck_example :
    start list_queue
      (some home_config)
      good_boot
      (start list_queue (some home_config) no_events stopped).1
    ≡ (invalid_state, (start list_queue (some home_config) no_events stopped).1)
start-stuck_example =
    start-stuck list_queue home_config home_config no_events good_boot stopped four_slots
      home-IsAcceptable home-IsAcceptable refl refl no_events_fails
