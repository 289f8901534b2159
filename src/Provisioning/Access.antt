-- ===== src/Provisioning/Access.antt =====
-- The writes that put the pending configuration in force, and the callback of the attributes.
-- `aetus_update_config` keeps the pointers it is given: after an accepted `apply` the strings of the
-- running configuration are the arrays of the pending one.
use aetus.Base.{ℕ, Bool, true, false, Option, none, some, List, if◌then◌else◌}
use aetus.Types.{Config}
use aetus.Esp.{EspErr, Result, ok, err, is_ok}
use aetus.Rtos.{RtosQueue}
use aetus.Config.{Ctx, Drivers, next_config, update_checks, update_config}
use aetus.Provisioning.{
  Field, AttCode, success, unlikely, Pending, Mbufs, pending_config, write_field, provisioning_read,
  append_text,
}

-- `config` with its strings read from the arrays.
abbrev pub with_strings_of : Pending → Config → Config
with_strings_of p config =
    let bound = pending_config p in
    record config {
      wifi_ssid = bound.wifi_ssid;
      wifi_password = bound.wifi_password;
      wifi_identity = bound.wifi_identity;
      ingest_url = bound.ingest_url;
      time_url = bound.time_url;
      device_id = bound.device_id;
      device_token = bound.device_token;
    }

module _ (rtos : RtosQueue) where
  -- `shared` is whether the strings of `s_ctx.config` lead to the arrays of `s_prov`, and `watched`
  -- whether `config_changed_cb` is set.
  pub record System : Type 0 where
    pub pending : Pending
    pub ctx : Ctx rtos
    pub shared : Bool
    pub watched : Bool

  -- The configuration that the running component reads.
  unfoldable pub running : System → Config
  running sys = if sys.shared then with_strings_of sys.pending sys.ctx.config else sys.ctx.config

  -- What an access does: its code, the system after it, and the configuration that the callback is
  -- given, if it is called.
  pub record Access : Type 0 where
    pub code : AttCode
    pub after : System
    pub notified : Option Config

  -- Whether an update stores the configuration, which is before it can fail in a driver.
  abbrev pub passes : Result (Unit {0}) → Bool
  passes (ok u) = true
  passes (err e) = false

  abbrev pub stores : Ctx rtos → Config → Option rtos.Queue → Bool
  stores ctx config none = false
  stores ctx config (some q) = passes (update_checks (next_config rtos ctx config))

  abbrev pub applied : System → Bool → EspErr × Ctx rtos → Access
  applied sys stores (rc, ctx) =
      let after = record sys { ctx = ctx; shared = if stores then true else sys.shared } in
      if is_ok rc
      then record {
        code = success;
        after = after;
        notified = if sys.watched then some (pending_config sys.pending) else none;
      }
      else record { code = unlikely; after = after; notified = none }

  unfoldable pub provisioning_apply : Drivers → System → Access
  provisioning_apply drivers sys =
      let config = pending_config sys.pending in
      applied sys (stores sys.ctx config sys.ctx.queue)
        (update_config rtos (some config) drivers sys.ctx)

  abbrev stored : System → AttCode × Pending → Access
  stored sys (code, pending) = record {
    code = code;
    after = record sys { pending = pending };
    notified = none;
  }

  unfoldable pub provisioning_write : Mbufs → Drivers → System → Field → List ℕ → Access
  unfolding provisioning_apply
  provisioning_write mbufs drivers sys Field.apply om = provisioning_apply drivers sys
  provisioning_write mbufs drivers sys field om =
      stored sys (write_field mbufs sys.pending field om)

  -- The operations of the attribute protocol; `read_descriptor` has the name of a characteristic.
  pub data Operation : Type 0 where
    read_chr : Field → Operation
    write_chr : Field → List ℕ → Operation
    read_dsc : List ℕ → Operation
    write_dsc : Operation

  -- An access, with the reply of a read after `om`.
  abbrev replied : System → AttCode × List ℕ → Access × List ℕ
  replied sys (code, om) = (record { code = code; after = sys; notified = none }, om)

  unfoldable pub provisioning_access :
      Mbufs → Drivers → System → Operation → List ℕ → Access × List ℕ
  unfolding provisioning_write
  provisioning_access mbufs drivers sys (read_chr field) om =
      replied sys (provisioning_read mbufs sys.pending field om)
  provisioning_access mbufs drivers sys (write_chr field value) om =
      (provisioning_write mbufs drivers sys field value, om)
  provisioning_access mbufs drivers sys (read_dsc name) om = replied sys (append_text mbufs om name)
  provisioning_access mbufs drivers sys write_dsc om = replied sys (unlikely, om)
