-- ===== src/Config.antt =====
-- The configuration of the component in firmware/esp32-aetus/components/aetus/aetus.c:
-- `aetus_start`, `aetus_update_config` and `aetus_get_config`. What the drivers return is an input of
-- a call; `s_ctx` is the state, where `wifi_connected` is the bit of its event group, and
-- `wifi_reconfiguring`, which only `aetus_update_config` sets while it runs, is left out.
pub mod Accepted
pub mod Started
use aetus.Base.{
  ℕ, ◌/◌, ◌%◌, ◌+◌, Bool, true, false, not, Option, none, some, List, [], ◌∷◌, ◌++◌, ◌==◌,
  if◌then◌else◌, replicate, codes,
}
use aetus.Types.{
  Config, WifiAuth, psk, peap, AuthMode, bearer, hmac_sha256, SignalPoolStats, zero_stats,
  wifi_ssid_max, wifi_password_max, wifi_identity_max, url_max, device_id_max, device_token_max,
  default_interval_ms,
}
use aetus.Esp.{
  EspErr, esp_ok, esp_fail, no_mem, invalid_arg, invalid_state, Result, ok, err, guard, or_err,
  ◌>>=◌, ◌>>◌, is_ok,
}
use aetus.CString.{string_required_fits, string_fits}
use aetus.Frame.{has_text}
use aetus.Hex.{digit}
use aetus.SignalPool.{copy_stats}
use aetus.Rtos.{RtosQueue}

abbrev pub is_wifi_auth : WifiAuth → Bool
is_wifi_auth psk = true
is_wifi_auth peap = true
is_wifi_auth (WifiAuth.unknown n) = false

abbrev pub is_auth_mode : AuthMode → Bool
is_auth_mode bearer = true
is_auth_mode hmac_sha256 = true
is_auth_mode (AuthMode.unknown n) = false

abbrev pub is_peap : WifiAuth → Bool
is_peap peap = true
is_peap _ = false

-- The checks that `aetus_start` and `aetus_update_config` have in common, before and after those
-- for PEAP.
abbrev pub check_head : Config → Result (Unit {0})
check_head config = do
  guard (string_required_fits config.wifi_ssid wifi_ssid_max) invalid_arg
  guard (string_required_fits config.wifi_password wifi_password_max) invalid_arg
  guard (is_wifi_auth config.wifi_auth) invalid_arg
  guard (is_auth_mode config.auth_mode) invalid_arg

abbrev pub check_tail : Config → Result (Unit {0})
check_tail config = do
  guard (string_required_fits config.ingest_url url_max) invalid_arg
  guard (string_fits config.time_url (url_max + 1)) invalid_arg
  guard (string_required_fits config.device_id device_id_max) invalid_arg
  guard (string_required_fits config.device_token device_token_max) invalid_arg

unfoldable pub start_checks : Config → Result (Unit {0})
start_checks config = do
  check_head config
  if is_peap config.wifi_auth
      then (do
        guard (string_required_fits config.wifi_identity wifi_identity_max) invalid_arg
        guard (has_text config.wifi_password) invalid_arg)
      else ok tt
  check_tail config

unfoldable pub update_checks : Config → Result (Unit {0})
update_checks config = do
  check_head config
  if is_peap config.wifi_auth
      then guard (string_required_fits config.wifi_identity wifi_identity_max) invalid_arg
      else ok tt
  check_tail config

-- `%08lx` of a 32-bit number.
abbrev pub hex32 : ℕ → List ℕ
hex32 n =
    digit (n / 268435456 % 16)
    ∷ digit (n / 16777216 % 16)
    ∷ digit (n / 1048576 % 16)
    ∷ digit (n / 65536 % 16)
    ∷ digit (n / 4096 % 16)
    ∷ digit (n / 256 % 16)
    ∷ digit (n / 16 % 16)
    ∷ digit (n % 16)
    ∷ []

-- `snprintf(s_ctx.boot_id, ...)` into the cleared `char boot_id[32]`.
abbrev pub boot_id_of : ℕ → List ℕ
boot_id_of random = codes "boot-" ++ hex32 random ++ replicate 19 0

abbrev pub or_default : ℕ → ℕ → ℕ
or_default value default = if value == 0 then default else value

-- What the system does for `aetus_start`.
pub record Boot : Type 0 where
  pub random : ℕ
  pub to_ticks : ℕ → ℕ
  pub event_group : Bool
  pub led : EspErr
  pub timer : Bool
  pub task : Bool
  pub timer_start : Bool

-- And for `aetus_update_config`.
pub record Drivers : Type 0 where
  pub to_ticks : ℕ → ℕ
  pub led : EspErr
  pub apply : EspErr
  pub connect : EspErr

module _ (rtos : RtosQueue) where
  pub record Ctx : Type 0 where
    pub config : Config
    pub queue : Option rtos.Queue
    pub events : Bool
    pub upload_timer : Option ℕ
    pub sequence : ℕ
    pub boot_id : List ℕ
    pub wifi_started : Bool
    pub wifi_connected : Bool
    pub stats : SignalPoolStats

  -- `memset(&s_ctx, 0, sizeof(s_ctx))`, the configuration with its defaults, and the boot id.
  unfoldable pub fresh_ctx : Config → ℕ → Ctx
  fresh_ctx config random = record {
    config = record config {
      upload_interval_ms = or_default config.upload_interval_ms default_interval_ms;
      queue_depth = or_default config.queue_depth 16;
    };
    queue = none;
    events = false;
    upload_timer = none;
    sequence = 0;
    boot_id = boot_id_of random;
    wifi_started = false;
    wifi_connected = false;
    stats = zero_stats;
  }

  -- The steps after the queue is created; one that fails leaves what came before it.
  abbrev pub start_services : Boot → Ctx → EspErr × Ctx
  start_services boot ctx =
      let with_events = record ctx { events = true } in
      let with_timer = record with_events {
        upload_timer = some (boot.to_ticks ctx.config.upload_interval_ms);
      } in
      if not boot.event_group
      then (no_mem, ctx)
      else if not (is_ok boot.led)
      then (boot.led, with_events)
      else if not boot.timer
      then (no_mem, with_events)
      else if not boot.task
      then (no_mem, with_timer)
      else if not boot.timer_start
      then (esp_fail, with_timer)
      else (esp_ok, with_timer)

  abbrev pub start_queue : Boot → Ctx → Option rtos.Queue → EspErr × Ctx
  start_queue boot ctx none = (no_mem, ctx)
  start_queue boot ctx (some q) = start_services boot (record ctx { queue = some q })

  abbrev pub start_checked :
      Config → Boot → Ctx → Result (Unit {0}) → Option rtos.Queue → EspErr × Ctx
  start_checked config boot ctx (err e) queue = (e, ctx)
  start_checked config boot ctx (ok u) (some q) = (invalid_state, ctx)
  start_checked config boot ctx (ok u) none =
      let fresh = fresh_ctx config boot.random in
      start_queue boot fresh (rtos.create (or_default config.queue_depth 16))

  unfoldable pub start : Option Config → Boot → Ctx → EspErr × Ctx
  unfolding fresh_ctx
  start none boot ctx = (invalid_arg, ctx)
  start (some config) boot ctx = start_checked config boot ctx (start_checks config) ctx.queue

  -- The configuration that an update puts in force.
  abbrev pub next_config : Ctx → Config → Config
  next_config ctx config = record config {
    upload_interval_ms = or_default config.upload_interval_ms default_interval_ms;
    queue_depth = or_default config.queue_depth ctx.config.queue_depth;
  }

  -- The reconnection of a station that was started.
  abbrev pub reconnect : Drivers → Ctx → EspErr × Ctx
  reconnect drivers ctx =
      let down = record ctx { wifi_connected = false } in
      if not ctx.wifi_started
      then (esp_ok, ctx)
      else if not (is_ok drivers.apply)
      then (drivers.apply, down)
      else (drivers.connect, down)

  abbrev pub put_in_force : Drivers → Ctx → Config → EspErr × Ctx
  put_in_force drivers ctx next =
      let changed = record ctx { config = next } in
      if not (is_ok drivers.led)
      then (drivers.led, changed)
      else reconnect drivers (record changed {
        upload_timer = retimed ctx.upload_timer (drivers.to_ticks next.upload_interval_ms);
      })
    where
      retimed : Option ℕ → ℕ → Option ℕ
      retimed none interval = none
      retimed (some old) interval = some interval

  abbrev pub update_checked : Drivers → Ctx → Config → Result (Unit {0}) → EspErr × Ctx
  update_checked drivers ctx next (err e) = (e, ctx)
  update_checked drivers ctx next (ok u) = put_in_force drivers ctx next

  abbrev pub update_started : Option Config → Drivers → Ctx → Option rtos.Queue → EspErr × Ctx
  update_started config drivers ctx none = (invalid_state, ctx)
  update_started none drivers ctx (some q) = (invalid_arg, ctx)
  update_started (some config) drivers ctx (some q) =
      let next = next_config ctx config in update_checked drivers ctx next (update_checks next)

  unfoldable pub update_config : Option Config → Drivers → Ctx → EspErr × Ctx
  update_config config drivers ctx = update_started config drivers ctx ctx.queue

  -- `aetus_get_config`, for whether the output pointer is not `NULL`.
  abbrev pub config_of : Ctx → Option rtos.Queue → Result Config
  config_of ctx none = err invalid_state
  config_of ctx (some q) = ok ctx.config

  unfoldable pub get_config : Bool → Ctx → Result Config
  get_config output ctx = guard output invalid_arg >> config_of ctx ctx.queue

  -- `aetus_get_signal_sample_pool_stats`, for what its pointer leads to.
  abbrev copied_stats : SignalPoolStats → Ctx → Option rtos.Queue → Result SignalPoolStats
  copied_stats target ctx none = err invalid_state
  copied_stats target ctx (some q) = ok (copy_stats target ctx.stats)

  unfoldable pub get_signal_sample_pool_stats :
      Option SignalPoolStats → Ctx → Result SignalPoolStats
  unfolding copy_stats
  get_signal_sample_pool_stats stats ctx = do
    target ← or_err stats invalid_arg
    copied_stats target ctx ctx.queue
