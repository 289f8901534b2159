-- ===== src/Provisioning/Begin.antt =====
-- `aetus_start_provisioning`: the state it resets, what it takes over from the running
-- configuration, and the calls of NimBLE, whose answers are inputs.
use aetus.Base.{ℕ, Bool, true, false, not, Option, none, some, List, ◌==◌, if◌then◌else◌, codes}
use aetus.Types.{Config}
use aetus.Esp.{
  EspErr, esp_ok, esp_fail, invalid_state, nvs_no_free_pages, nvs_new_version_found, Result, ok,
  err, guard, ◌>>◌, is_ok,
}
use aetus.Rtos.{RtosQueue}
use aetus.Config.{get_config}
use aetus.Provisioning.{zero_pending, sync_pending_from_runtime}
use aetus.Provisioning.Access.{System, running}
use aetus.Provisioning.Link.{Link}

-- The answers of the flash driver and of NimBLE.
pub record Services : Type 0 where
  pub nvs : EspErr
  pub nvs_erase : EspErr
  pub nvs_again : EspErr
  pub nimble : EspErr
  pub gatt_count : ℕ
  pub gatt_add : ℕ
  pub name_set : List ℕ → ℕ

-- The caller's structure: which callbacks it sets, and the name.
pub record Request : Type 0 where
  pub watch_config : Bool
  pub watch_connection : Bool
  pub device_name : Option (List ℕ)

abbrev pub needs_erase : EspErr → Bool
needs_erase nvs_no_free_pages = true
needs_erase nvs_new_version_found = true
needs_erase _ = false

-- `err == ESP_ERR_INVALID_STATE ? ESP_OK : err`
abbrev pub initialized_or : EspErr → EspErr
initialized_or invalid_state = esp_ok
initialized_or e = e

unfoldable pub ensure_nvs_initialized : Services → EspErr
ensure_nvs_initialized services =
    if needs_erase services.nvs
    then (if is_ok services.nvs_erase
        then initialized_or services.nvs_again
        else services.nvs_erase)
    else initialized_or services.nvs

abbrev pub name_of : Option Request → List ℕ
name_of none = codes "AETUS Provisioning"
name_of (some request) = or_name request.device_name
  where
    or_name : Option (List ℕ) → List ℕ
    or_name none = codes "AETUS Provisioning"
    or_name (some name) = name

abbrev pub watches_config : Option Request → Bool
watches_config none = false
watches_config (some request) = request.watch_config

abbrev pub watches_connection : Option Request → Bool
watches_connection none = false
watches_connection (some request) = request.watch_connection

module _ (rtos : RtosQueue) where
  -- `s_prov`, with the component that it configures.
  pub record Prov : Type 0 where
    pub sys : System rtos
    pub link : Link

  -- After `memset(&s_prov, 0, ...)`: a running configuration that shares the arrays loses its strings.
  abbrev pub cleared : Prov → System rtos
  cleared prov = record prov.sys { pending = zero_pending; watched = false }

  abbrev pub no_link : Link
  no_link = record {
    started = false;
    connected = false;
    callout_initialized = false;
    conn_handle = 0;
    own_addr_type = 0;
    check_watched = false;
    advertising = false;
    timer = false;
  }

  abbrev runtime_of : System rtos → Result Config
  runtime_of sys = get_config rtos true (record sys.ctx { config = running rtos sys })

  -- The state that a start sets before it calls the drivers.
  unfoldable pub prepared : Option Request → Prov → Prov
  prepared request prov =
      let sys = cleared prov in
      record {
        sys = record sys {
          pending = sync_pending_from_runtime (runtime_of sys) zero_pending;
          watched = watches_config request;
        };
        link = record no_link { check_watched = watches_connection request };
      }

  -- The calls of the stack before and after the timer is there.
  abbrev pub services_checks : Option Request → Services → Result (Unit {0})
  services_checks request services = do
    guard (services.gatt_count == 0) esp_fail
    guard (services.gatt_add == 0) esp_fail
    guard (services.name_set (name_of request) == 0) esp_fail

  abbrev pub with_services : Prov → Result (Unit {0}) → EspErr × Prov
  with_services prov (err e) = (e, prov)
  with_services prov (ok u) = (esp_ok, record prov { link = record prov.link { started = true } })

  abbrev pub with_stack : Option Request → Services → Prov → EspErr × Prov
  with_stack request services prov =
      let ready = record prov { link = record prov.link { callout_initialized = true } } in
      if not (is_ok (ensure_nvs_initialized services))
      then (ensure_nvs_initialized services, prov)
      else if not (is_ok services.nimble)
      then (services.nimble, prov)
      else with_services ready (services_checks request services)

  unfoldable pub start_provisioning : Option Request → Services → Prov → EspErr × Prov
  unfolding ensure_nvs_initialized prepared
  start_provisioning request services prov =
      if prov.link.started
      then (invalid_state, prov)
      else with_stack request services (prepared request prov)
