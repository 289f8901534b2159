-- ===== src/Wifi/Runs.antt =====
-- The handler of the Wi-Fi events and the update of the configuration over any run of events. The
-- driver posts its events to a queue that the handler is called from. A call of `esp_wifi_connect`
-- that is accepted makes a driver that is idle connect, as ESP-IDF documents it; one that is refused,
-- whose result the handler does not look at, changes nothing. `aetus_update_config` is three steps:
-- the LED, the disconnect, and what it does after its wait.
use aetus.Base.{
  ◌≡◌, ◌≢◌, ◌⊎◌, refl, sym, ap, ◌∙◌, Bool, true, false, inl, inr, Bool-cases, List, [], ◌∷◌, ◌++◌,
  if◌then◌else◌, not,
}
use aetus.Wifi.{
  WifiEvent, sta_start, sta_disconnected, sta_got_ip, Station, wifi_event_handler, begin_update,
  end_update, configure_connected_led,
}
use aetus.Esp.{EspErr, is_ok}

pub data Driver : Type 0 where
  idle connecting up : Driver

pub record World : Type 0 where
  pub station : Station
  pub driver : Driver
  pub pending : List WifiEvent
  -- The last attempt to connect was refused; and the LED was set up as the configuration says.
  pub refused : Bool
  pub led_ready : Bool

abbrev pub is_up : Driver → Bool
is_up idle = false
is_up connecting = false
is_up up = true

-- A driver after a call to connect, if there is one that is accepted.
abbrev pub asked : Bool → Driver → Driver
asked true idle = connecting
asked _ driver = driver

-- What is posted when a driver disconnects.
abbrev pub farewell : Driver → List WifiEvent
farewell idle = []
farewell _ = sta_disconnected ∷ []

-- The handler is called, and its attempt to connect, if it makes one, is accepted or refused.
abbrev pub handled : World → WifiEvent → List WifiEvent → Bool → World
handled w e es accepted =
    let connects = (wifi_event_handler w.station e).1 in
    record w {
      station = (wifi_event_handler w.station e).0;
      driver = asked (if connects then accepted else false) w.driver;
      pending = es;
      refused = if connects then not accepted else w.refused;
    }

pub data Step (w : World) : World → Type 0 where
  handles :
      (e : WifiEvent) (es : List WifiEvent) (accepted : Bool)
      → w.pending ≡ e ∷ es
      → Step w (handled w e es accepted)
  gets_ip :
      w.driver ≡ connecting
      → Step w (record w { driver = up; pending = w.pending ++ sta_got_ip ∷ [] })
  fails :
      w.driver ≢ idle
      → Step w (record w { driver = idle; pending = w.pending ++ sta_disconnected ∷ [] })
  sets_led :
      (enabled : Bool) (gpio : EspErr)
      → Step w (record w {
        station =
            (configure_connected_led gpio true (record w.station { led_enabled = enabled })).1;
        led_ready =
            is_ok
              (configure_connected_led gpio true (record w.station { led_enabled = enabled })).0;
      })
  begins : Step w (record w {
    station = begin_update w.station;
    driver = idle;
    pending = w.pending ++ farewell w.driver;
  })
  -- `connects` is whether the driver takes the settings and then accepts the call to connect.
  ends :
      (connects : Bool)
      → w.station.reconfiguring ≡ true
      → Step w (record w {
        station = end_update w.station;
        driver = asked connects w.driver;
        refused = not connects;
      })

pub data Reaches (w : World) : World → Type 0 where
  here : Reaches w w
  next : {u v : World} → Reaches w u → Step u v → Reaches w v

-- What the bit is once the pending events are handled.
abbrev pub bit_after : WifiEvent → Bool → Bool
bit_after sta_disconnected bit = false
bit_after sta_got_ip bit = true
bit_after _ bit = bit

unfoldable pub settled : List WifiEvent → Bool → Bool
settled [] bit = bit
settled (e ∷ es) bit = settled es (bit_after e bit)

-- An event at which the handler connects.
abbrev pub wakes : WifiEvent → Bool
wakes sta_start = true
wakes sta_disconnected = true
wakes _ = false

unfoldable pub any_wakes : List WifiEvent → Bool
any_wakes [] = false
any_wakes (e ∷ es) = if wakes e then true else any_wakes es

-- The bit agrees with the driver up to the pending events, an LED that was set up shows the bit, and
-- a driver that is idle has an event ahead at which the handler connects, unless an update is under
-- way or the last attempt to connect was refused.
pub record IsLinked (w : World) : Type 0 where
  pub bit : settled w.pending w.station.connected ≡ is_up w.driver
  pub led :
      w.led_ready ≡ true → w.station.led_enabled ≡ true → w.station.led_level ≡ w.station.connected
  pub retries :
      w.refused ≡ false
      → w.driver ≡ idle
      → (w.station.reconfiguring ≡ true) ⊎ (any_wakes w.pending ≡ true)

any_wakes-append : (es fs : List WifiEvent) → any_wakes es ≡ true → any_wakes (es ++ fs) ≡ true
unfolding any_wakes
any_wakes-append [] fs h = cc
any_wakes-append (e ∷ es) fs h = elim (Bool-cases (wakes e)) [
  | inl y ↦ rw y refl
  | inr n ↦ rw n (any_wakes-append es fs (ap (λ b. if b then true else any_wakes es) (sym n) ∙ h))
]

-- A station after `esp_wifi_start`, whose first event is pending.
abbrev pub booted : Station → World
booted station = record {
  station = station;
  driver = idle;
  pending = sta_start ∷ [];
  refused = false;
  led_ready = true;
}
