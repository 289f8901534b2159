-- ===== src/Wifi.antt =====
-- The Wi-Fi connection in firmware/esp32-aetus/components/aetus/aetus.c: the handler of its events,
-- the LED, the settings of the station, and the start of the driver. What the drivers of ESP-IDF
-- return is an input of a call.
pub mod Runs
pub mod Settings
use aetus.Base.{
  ℕ, ◌+◌, Bool, true, false, not, Option, none, some, List, if◌then◌else◌, length, replicate,
}
use aetus.Types.{Config, WifiAuth, psk, peap}
use aetus.Esp.{
  EspErr, esp_ok, timeout, invalid_state, nvs_no_free_pages, nvs_new_version_found, Result, ok, err,
  check, ◌>>◌, is_ok,
}
use aetus.CString.{copy_string}
use aetus.Post.{text_of}

pub data WifiEvent : Type 0 where
  sta_start sta_disconnected sta_got_ip : WifiEvent
  unknown : ℕ → WifiEvent

-- What the handler reads and writes: the bit of the event group, `wifi_reconfiguring`, the LED of the
-- configuration, and the level of its pin.
pub record Station : Type 0 where
  pub connected : Bool
  pub reconfiguring : Bool
  pub led_enabled : Bool
  pub led_level : Bool

-- `gpio_set_level` where the LED is enabled.
abbrev pub show : Bool → Station → Station
show level station = record station {
  led_level = if station.led_enabled then level else station.led_level;
}

-- The station after an event, and whether `esp_wifi_connect` is called.
unfoldable pub wifi_event_handler : Station → WifiEvent → Station × Bool
wifi_event_handler station sta_start = (station, true)
wifi_event_handler station sta_disconnected =
    let down = show false (record station { connected = false }) in
    if station.reconfiguring then (down, false) else (down, true)
wifi_event_handler station sta_got_ip = (show true (record station { connected = true }), false)
wifi_event_handler station (unknown id) = (station, false)

-- For the result of `gpio_config` and for whether the event group is there.
unfoldable pub configure_connected_led : EspErr → Bool → Station → EspErr × Station
configure_connected_led gpio events station =
    if not station.led_enabled
    then (esp_ok, station)
    else if not (is_ok gpio)
    then (gpio, station)
    else (esp_ok, record station { led_level = if events then station.connected else false })

-- What `aetus_update_config` does to a station that was started, before and after it waits.
abbrev pub begin_update : Station → Station
begin_update station = record (show false (record station { connected = false })) {
  reconfiguring = true;
}

abbrev pub end_update : Station → Station
end_update station = record station { reconfiguring = false }

pub data AuthThreshold : Type 0 where
  open_network wpa2_psk wpa2_enterprise : AuthThreshold

-- The fields of ESP-IDF's station configuration that are set.
pub record StaConfig : Type 0 where
  pub ssid : List ℕ
  pub password : List ℕ
  pub threshold : AuthThreshold
  pub sae_both : Bool

-- The sizes of its arrays.
pub record StaSizes : Type 0 where
  pub ssid_size : ℕ
  pub password_size : ℕ

-- What the driver answers to the calls, the four of PEAP and the last that enables it.
pub record WifiDriver : Type 0 where
  pub set_config : StaConfig → EspErr
  pub set_identity : List ℕ → ℕ → EspErr
  pub set_username : List ℕ → ℕ → EspErr
  pub set_password : List ℕ → ℕ → EspErr
  pub set_eap_methods : EspErr
  pub enterprise_enable : EspErr

unfoldable pub wifi_configure_peap : WifiDriver → Config → Result (Unit {0})
wifi_configure_peap driver config = do
  let identity = text_of config.wifi_identity
  let password = text_of config.wifi_password
  check (driver.set_identity identity (length identity))
  check (driver.set_username identity (length identity))
  check (driver.set_password password (length password))
  check driver.set_eap_methods
  check driver.enterprise_enable

abbrev pub blank_sta : StaSizes → StaConfig
blank_sta sizes = record {
  ssid = replicate sizes.ssid_size 0;
  password = replicate sizes.password_size 0;
  threshold = open_network;
  sae_both = false;
}

abbrev with_auth : StaSizes → Config → WifiAuth → StaConfig → StaConfig
with_auth sizes config psk sta = record sta {
  password = copy_string sta.password sizes.password_size config.wifi_password;
  threshold = wpa2_psk;
  sae_both = true;
}
with_auth sizes config peap sta = record sta { threshold = wpa2_enterprise }
with_auth sizes config (WifiAuth.unknown n) sta = sta

unfoldable pub sta_config : StaSizes → Config → StaConfig
sta_config sizes config =
    let blank = blank_sta sizes in
    with_auth sizes config config.wifi_auth
      (record blank { ssid = copy_string blank.ssid sizes.ssid_size config.wifi_ssid })

abbrev peap_step : WifiDriver → Config → WifiAuth → Result (Unit {0})
peap_step driver config peap = wifi_configure_peap driver config
peap_step driver config _ = ok tt

unfoldable pub wifi_apply_sta_config : StaSizes → WifiDriver → Config → Result (Unit {0})
unfolding sta_config wifi_configure_peap
wifi_apply_sta_config sizes driver config = do
  check (driver.set_config (sta_config sizes config))
  peap_step driver config config.wifi_auth

-- What the system answers to the calls of a start; `esp_netif_create_default_wifi_sta` returns, or
-- aborts, as it does where the station is there already.
pub record Startup : Type 0 where
  pub nvs : EspErr
  pub nvs_erase : EspErr
  pub nvs_again : EspErr
  pub netif : EspErr
  pub event_loop : EspErr
  pub sta_created : Bool
  pub init : EspErr
  pub register_wifi : EspErr
  pub register_ip : EspErr
  pub set_mode : EspErr
  pub set_storage : EspErr
  pub start : EspErr

-- The driver's side of a start: whether it is started, and how often the handler is registered for
-- the events of the Wi-Fi and for the address; a registration adds an instance.
pub record Radio : Type 0 where
  pub wifi_started : Bool
  pub wifi_handlers : ℕ
  pub ip_handlers : ℕ

abbrev pub ok_if_already_initialized : EspErr → EspErr
ok_if_already_initialized invalid_state = esp_ok
ok_if_already_initialized e = e

abbrev pub wants_erase : EspErr → Bool
wants_erase nvs_no_free_pages = true
wants_erase nvs_new_version_found = true
wants_erase _ = false

-- The calls up to the default event loop, those before the handlers are registered, and after.
abbrev pub initialised : Startup → Result (Unit {0})
initialised s = do
  if wants_erase s.nvs then (check s.nvs_erase >> check s.nvs_again) else check s.nvs
  check (ok_if_already_initialized s.netif)
  check (ok_if_already_initialized s.event_loop)

abbrev pub before_handlers : Startup → Result (Unit {0})
before_handlers s = initialised s >> check s.init

-- The call that creates the station is made, and does not return.
abbrev pub aborts : Startup → Result (Unit {0}) → Bool
aborts s (err e) = false
aborts s (ok u) = not s.sta_created

abbrev pub after_handlers : Startup → Result (Unit {0}) → Result (Unit {0})
after_handlers s applied = do check s.set_mode; check s.set_storage; applied; check s.start

abbrev started_radio : Radio → Result (Unit {0}) → Result (Unit {0}) × Radio
started_radio radio (err e) = (err e, radio)
started_radio radio (ok u) = (ok tt, record radio { wifi_started = true })

abbrev register_handlers :
    Startup → Result (Unit {0}) → Radio → Result (Unit {0}) → Result (Unit {0}) × Radio
register_handlers s applied radio (err e) = (err e, radio)
register_handlers s applied radio (ok u) =
    let one = record radio { wifi_handlers = radio.wifi_handlers + 1 } in
    let both = record one { ip_handlers = one.ip_handlers + 1 } in
    if not (is_ok s.register_wifi)
    then (err s.register_wifi, radio)
    else if not (is_ok s.register_ip)
    then (err s.register_ip, one)
    else started_radio both (after_handlers s applied)

-- `none` where the program is aborted.
unfoldable pub wifi_start :
    StaSizes → WifiDriver → Config → Startup → Radio → Option (Result (Unit {0}) × Radio)
unfolding wifi_apply_sta_config
wifi_start sizes driver config s radio =
    if radio.wifi_started
    then some (ok tt, radio)
    else if aborts s (initialised s)
    then none
    else some
        (register_handlers s (wifi_apply_sta_config sizes driver config) radio (before_handlers s))

-- `wifi_wait_connected_for`, for the bit when the wait ends.
unfoldable pub wifi_wait_connected_for : Result (Unit {0}) → Bool → EspErr
wifi_wait_connected_for (err e) bit = e
wifi_wait_connected_for (ok u) bit = if bit then esp_ok else timeout
