-- ===== src/Tests/Provisionings.antt =====
-- A provisioning service with plain packet buffers.
use aetus.Base.{
  ◌≡◌, ◌≤◌, ◌⊎◌, ◌<◌, refl, sym, subst, true, false, none, some, [], ◌++◌, arith, leb,
  if◌then◌else◌, length, codes, le→leb,
}
use aetus.Types.{hmac_sha256}
use aetus.Esp.{esp_ok, ok}
use aetus.CString.{IsText, c_str, strncpy, copy_string}
use aetus.CString.Fits.{nonzero-IsText}
use aetus.Decimal.{print, strto, skip_space, read_digits}
use aetus.Config.{Drivers, next_config}
use aetus.Config.Accepted.{IsAcceptable}
use aetus.Provisioning
use aetus.Provisioning.{
  Mbufs, Pending, zero_pending, pending_config, sync_pending_from_runtime, write_field,
  provisioning_read, read_u32_from_mbuf, append_text, success, invalid_value_len, refused, strip,
  write_text,
}
use aetus.Provisioning.Access.{System, running, provisioning_apply, provisioning_write}
use aetus.Provisioning.Applied.{IsApplied, setting, provisioning_apply-IsApplied, write-after_apply}
use aetus.Provisioning.Begin.{Services, Prov, start_provisioning, prepared, ensure_nvs_initialized}
use aetus.Provisioning.Begun.{apply-start_provisioning, started-IsServed}
use aetus.Provisioning.Buffers.{CopiesWhole}
use aetus.Provisioning.Fields.{IsPending, write_field-IsPending}
use aetus.Provisioning.Link.{Link, Host, connect, provisioning_on_sync, provisioning_gap_event}
use aetus.Provisioning.Numbers.{at_queue_depth, provisioning_read-number}
use aetus.Provisioning.Readback.{at_wifi_ssid, ssid, provisioning_read-write_field}
use aetus.Provisioning.Served.{Accepts, World, Reaches, here, next, connects, silent, IsServed}
use aetus.Provisioning.Takeover.{HasTexts, taken_over, sync-taken_over, taken_over-IsAcceptable}
use aetus.Tests.Starts.{home-IsAcceptable}
use aetus.Tests.Toys.{list_queue, home_config, home_ctx}

abbrev plain_mbufs : Mbufs
plain_mbufs = record {
  to_flat = λ om n. if leb (length om) n then some om else none;
  append = λ om bytes. some (om ++ bytes);
}

plain-CopiesWhole : CopiesWhole plain_mbufs
plain-CopiesWhole om n le = rw (le→leb (length om) n le) refl

zero-IsPending : IsPending zero_pending
unfolding c_str
zero-IsPending = (
  (refl, omega arith),
  (refl, omega arith),
  (refl, omega arith),
  (refl, omega arith),
  (refl, omega arith),
  (refl, omega arith),
  (refl, omega arith),
)

write_field-IsPending_example :
    IsPending (write_field plain_mbufs zero_pending Provisioning.Field.wifi_ssid (codes "lab\n")).1
write_field-IsPending_example =
    write_field-IsPending plain_mbufs zero_pending Provisioning.Field.wifi_ssid (codes "lab\n")
      plain-CopiesWhole zero-IsPending

lab-IsText : IsText (codes "lab\n")
lab-IsText = nonzero-IsText (codes "lab\n") refl

provisioning_read-write_field_example :
    ((length (codes "lab\n") < 33)
      × ((write_field plain_mbufs zero_pending Provisioning.Field.wifi_ssid (codes "lab\n")).0
          ≡ success)
      × (provisioning_read plain_mbufs
            (write_field plain_mbufs zero_pending Provisioning.Field.wifi_ssid (codes "lab\n")).1
            Provisioning.Field.wifi_ssid
            []
          ≡ append_text plain_mbufs [] (strip (codes "lab\n"))))
    ⊎ ((33 ≤ length (codes "lab\n"))
        × ((write_field plain_mbufs zero_pending Provisioning.Field.wifi_ssid (codes "lab\n")).0
            ≡ invalid_value_len)
        × ((write_field plain_mbufs zero_pending Provisioning.Field.wifi_ssid
              (codes "lab\n")).1.wifi_ssid
            ≡ zero_pending.wifi_ssid))
provisioning_read-write_field_example =
    provisioning_read-write_field plain_mbufs zero_pending (codes "lab\n") [] plain-CopiesWhole
      zero-IsPending lab-IsText at_wifi_ssid ssid

provisioning_read-number_example :
    ((write_field plain_mbufs zero_pending Provisioning.Field.queue_depth (print 16)).0 ≡ success)
    × ((write_field plain_mbufs zero_pending Provisioning.Field.queue_depth
          (print 16)).1.queue_depth
        ≡ 16)
    × (provisioning_read plain_mbufs
          (write_field plain_mbufs zero_pending Provisioning.Field.queue_depth (print 16)).1
          Provisioning.Field.queue_depth
          []
        ≡ append_text plain_mbufs [] (print 16))
provisioning_read-number_example =
    provisioning_read-number plain_mbufs zero_pending 16 [] plain-CopiesWhole (omega arith)
      at_queue_depth

not_a_number : read_u32_from_mbuf plain_mbufs (codes "x") ≡ refused invalid_value_len
unfolding read_u32_from_mbuf write_text strip c_str strto skip_space read_digits
not_a_number = refl

-- A system whose pending configuration is the running one.
abbrev home_pending : Pending
home_pending = sync_pending_from_runtime (ok home_config) zero_pending

abbrev home_system : System list_queue
home_system = record { pending = home_pending; ctx = home_ctx; shared = false; watched = true }

abbrev good_drivers : Drivers
good_drivers = record { to_ticks = λ ms. ms; led = esp_ok; apply = esp_ok; connect = esp_ok }

home-HasTexts : HasTexts home_config
home-HasTexts = record {
  ssid = (nonzero-IsText (codes "home") refl, omega arith);
  password = (nonzero-IsText (codes "secret") refl, omega arith);
  identity = tt;
  ingest = (nonzero-IsText (codes "http://host/v1/ingest") refl, omega arith);
  time = tt;
  device = (nonzero-IsText (codes "dev-1") refl, omega arith);
  token = (nonzero-IsText (codes "token") refl, omega arith);
}

home_pending-IsAcceptable : IsAcceptable (pending_config home_pending)
home_pending-IsAcceptable =
    subst IsAcceptable (sym (sync-taken_over home_config home-HasTexts))
      (taken_over-IsAcceptable home_config home-IsAcceptable)

home_pending-IsPending : IsPending home_pending
unfolding c_str copy_string strncpy sync_pending_from_runtime
home_pending-IsPending = (
  (refl, omega arith),
  (refl, omega arith),
  (refl, omega arith),
  (refl, omega arith),
  (refl, omega arith),
  (refl, omega arith),
  (refl, omega arith),
)

provisioning_apply-IsApplied_example :
    IsApplied list_queue good_drivers home_system
      (provisioning_apply list_queue good_drivers home_system)
provisioning_apply-IsApplied_example =
    provisioning_apply-IsApplied list_queue good_drivers home_system

-- An empty name of the network, which `update_checks` refuses, is in force.
write-after_apply_example :
    setting at_wifi_ssid (
      running list_queue
        (provisioning_write list_queue plain_mbufs good_drivers
          (provisioning_apply list_queue good_drivers home_system).after
          Provisioning.Field.wifi_ssid
          []).after)
    ≡ some (strip [])
write-after_apply_example =
    write-after_apply list_queue plain_mbufs good_drivers good_drivers home_system
      (record { depth = 4; items = [] }) at_wifi_ssid [] refl home_pending-IsAcceptable
      plain-CopiesWhole home_pending-IsPending tt (omega arith)

abbrev idle_link : Link
idle_link = record {
  started = false;
  connected = false;
  callout_initialized = false;
  conn_handle = 0;
  own_addr_type = 0;
  check_watched = false;
  advertising = false;
  timer = false;
}

-- A component that signs its requests.
abbrev signing : Prov list_queue
signing = record {
  sys = record {
    pending = zero_pending;
    ctx = record home_ctx { config = record home_config { auth_mode = hmac_sha256 } };
    shared = false;
    watched = false;
  };
  link = idle_link;
}

abbrev good_services : Services
good_services = record {
  nvs = esp_ok;
  nvs_erase = esp_ok;
  nvs_again = esp_ok;
  nimble = esp_ok;
  gatt_count = 0;
  gatt_add = 0;
  name_set = λ name. 0;
}

signing-IsAcceptable : IsAcceptable signing.sys.ctx.config
signing-IsAcceptable =
    let a = home-IsAcceptable in
    record {
      ssid = a.ssid;
      password = a.password;
      auth = a.auth;
      mode = refl;
      identity = a.identity;
      ingest = a.ingest;
      time = a.time;
      device = a.device;
      token = a.token;
    }

signing-HasTexts : HasTexts signing.sys.ctx.config
signing-HasTexts =
    let h = home-HasTexts in
    record {
      ssid = h.ssid;
      password = h.password;
      identity = h.identity;
      ingest = h.ingest;
      time = h.time;
      device = h.device;
      token = h.token;
    }

apply-start_provisioning_example :
    running list_queue
      (provisioning_apply list_queue good_drivers
        (start_provisioning list_queue none good_services signing).1.sys).after
    ≡ next_config list_queue signing.sys.ctx (taken_over signing.sys.ctx.config)
apply-start_provisioning_example =
    apply-start_provisioning list_queue none good_services good_drivers signing
      (record { depth = 4; items = [] }) refl refl refl signing-IsAcceptable signing-HasTexts

abbrev kind_host : Host
kind_host = record {
  adv_set_fields = 0;
  adv_start = λ address. 0;
  infer_auto = some 1;
  conn_find = λ handle. none;
  terminate = λ handle. 0;
}

kind-Accepts : Accepts kind_host
kind-Accepts = record {
  fields = refl;
  starts = λ address. refl;
  address = 1;
  infers = refl;
  terminates = λ handle. refl;
}

signing-starts : (start_provisioning list_queue none good_services signing).0 ≡ esp_ok
unfolding start_provisioning ensure_nvs_initialized
signing-starts = refl

abbrev synced : World
synced = record {
  link =
      provisioning_on_sync kind_host
        (start_provisioning list_queue none good_services signing).1.link;
  peer = none;
  closing = false;
}

-- A client that connects after the synchronisation.
abbrev visited : World
visited = record {
  link = (provisioning_gap_event kind_host (silent synced.link) (connect 0 7)).0;
  peer = some 7;
  closing = false;
}

a_visit : Reaches kind_host synced visited
unfolding provisioning_on_sync start_provisioning prepared ensure_nvs_initialized
a_visit = next here (connects 7 refl)

started-IsServed_example : IsServed visited
started-IsServed_example =
    started-IsServed list_queue none good_services signing kind_host signing-starts kind-Accepts
      a_visit
