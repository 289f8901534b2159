-- ===== src/Provisioning/Applied.antt =====
-- What an `apply` puts in force, and what a write changes after it.
use aetus.Base.{
  ℕ, ◌<◌, ◌≡◌, ◌↔◌, ◌⊎◌, refl, sym, ap, subst, ◌∙◌, Bool, true, false, inl, inr, Option, none, some,
  List, arith, length, if◌then◌else◌,
}
use aetus.Types.{Config}
use aetus.Esp.{ok, err, Result, is_ok}
use aetus.CString.{CStr, IsText, c_str}
use aetus.Rtos.{RtosQueue}
use aetus.Config.{
  Ctx, Drivers, next_config, put_in_force, update_started, update_checked, update_checks,
  update_config,
}
use aetus.Config.Accepted.{
  IsAcceptable, RefusesInvalid, update_checks-RefusesInvalid, update_checks_iff,
}
use aetus.Provisioning.{
  Field, success, unlikely, Pending, Mbufs, pending_config, write_field, strip,
}
use aetus.Provisioning.Access.{
  System, Access, running, with_strings_of, passes, stores, applied, provisioning_apply,
  provisioning_write,
}
use aetus.Provisioning.Buffers.{CopiesWhole}
use aetus.Provisioning.Fields.{IsPending}
use aetus.Provisioning.Readback.{
  TextField, at_wifi_ssid, at_wifi_password, at_wifi_id, at_ingest_url, at_time_url, at_device_id,
  at_device_token, accepted_text,
}

-- The string of the configuration that a field sets.
abbrev pub setting :
    {field : Field} {array : Pending → List ℕ} {size : ℕ}
    → TextField field array size
    → Config
    → CStr
setting at_wifi_ssid config = config.wifi_ssid
setting at_wifi_password config = config.wifi_password
setting at_wifi_id config = config.wifi_identity
setting at_ingest_url config = config.ingest_url
setting at_time_url config = config.time_url
setting at_device_id config = config.device_id
setting at_device_token config = config.device_token

setting-with_strings_of :
    {field : Field} {array : Pending → List ℕ} {size : ℕ} (at : TextField field array size)
    (p : Pending) (config : Config)
    → setting at (with_strings_of p config) ≡ some (c_str (array p))
unfolding pending_config
setting-with_strings_of at_wifi_ssid p config = refl
setting-with_strings_of at_wifi_password p config = refl
setting-with_strings_of at_wifi_id p config = refl
setting-with_strings_of at_ingest_url p config = refl
setting-with_strings_of at_time_url p config = refl
setting-with_strings_of at_device_id p config = refl
setting-with_strings_of at_device_token p config = refl

module _ (rtos : RtosQueue) where
  next-IsAcceptable :
      (ctx : Ctx rtos) (config : Config)
      → IsAcceptable config ↔ IsAcceptable (next_config rtos ctx config)
  next-IsAcceptable ctx config = (
    λ a. record {
      ssid = a.ssid;
      password = a.password;
      auth = a.auth;
      mode = a.mode;
      identity = a.identity;
      ingest = a.ingest;
      time = a.time;
      device = a.device;
      token = a.token;
    },
    λ a. record {
      ssid = a.ssid;
      password = a.password;
      auth = a.auth;
      mode = a.mode;
      identity = a.identity;
      ingest = a.ingest;
      time = a.time;
      device = a.device;
      token = a.token;
    },
  )

  put_in_force-config :
      (drivers : Drivers) (ctx : Ctx rtos) (config : Config)
      → (put_in_force rtos drivers ctx config).1.config ≡ config
  put_in_force-config drivers ctx config = ground arith

  -- What an `apply` does: it is refused as a whole, or the pending configuration is in force, whether
  -- the drivers follow or not.
  pub data IsApplied (drivers : Drivers) (sys : System rtos) : Access rtos → Type 0 where
    not_started :
        sys.ctx.queue ≡ none
        → IsApplied drivers sys (record { code = unlikely; after = sys; notified = none })
    not_accepted :
        ¬ IsAcceptable (pending_config sys.pending)
        → IsApplied drivers sys (record { code = unlikely; after = sys; notified = none })
    in_force :
        {a : Access rtos} (q : rtos.Queue)
        → sys.ctx.queue ≡ some q
        → IsAcceptable (pending_config sys.pending)
        → running rtos a.after ≡ next_config rtos sys.ctx (pending_config sys.pending)
        → a.after.pending ≡ sys.pending
        → a.after.shared ≡ true
        → ((a.code ≡ success)
            × (a.notified ≡ (if sys.watched then some (pending_config sys.pending) else none)))
          ⊎ ((a.code ≡ unlikely) × (a.notified ≡ none))
        → IsApplied drivers sys a

  stored-running :
      (drivers : Drivers) (sys : System rtos)
      → with_strings_of sys.pending
          (put_in_force rtos drivers sys.ctx
            (next_config rtos sys.ctx (pending_config sys.pending))).1.config
        ≡ next_config rtos sys.ctx (pending_config sys.pending)
  stored-running drivers sys =
      ap (with_strings_of sys.pending) (
        put_in_force-config drivers sys.ctx (next_config rtos sys.ctx (pending_config sys.pending)))

  -- The call for a queue and an outcome of the checks.
  unfoldable apply_on : Drivers → System rtos → Option rtos.Queue → Access rtos
  apply_on drivers sys queue =
      let config = pending_config sys.pending in
      applied rtos sys (stores rtos sys.ctx config queue)
        (update_started rtos (some config) drivers sys.ctx queue)

  unfoldable apply_with : Drivers → System rtos → Result (Unit {0}) → Access rtos
  apply_with drivers sys r = applied rtos sys (passes rtos r) (
      update_checked rtos drivers sys.ctx (next_config rtos sys.ctx (pending_config sys.pending)) r)

  followed :
      (drivers : Drivers) (sys : System rtos) (q : rtos.Queue) (follows : Bool)
      → sys.ctx.queue ≡ some q
      → is_ok
          (put_in_force rtos drivers sys.ctx
            (next_config rtos sys.ctx (pending_config sys.pending))).0
        ≡ follows
      → IsAcceptable (pending_config sys.pending)
      → IsApplied drivers sys (apply_with drivers sys (ok tt))
  unfolding running apply_with
  followed drivers sys q true started e a =
      rw e (in_force q started a (stored-running drivers sys) refl refl (inl (refl, refl)))
  followed drivers sys q false started e a =
      rw e (in_force q started a (stored-running drivers sys) refl refl (inr (refl, refl)))

  checked :
      (drivers : Drivers) (sys : System rtos) (q : rtos.Queue) (r : Result (Unit {0}))
      → sys.ctx.queue ≡ some q
      → update_checks (next_config rtos sys.ctx (pending_config sys.pending)) ≡ r
      → RefusesInvalid r
      → IsApplied drivers sys (apply_with drivers sys r)
  unfolding apply_with
  checked drivers sys q (err code) started c refuses = rw refuses (
      not_accepted λ a.
        let passes =
          (update_checks_iff _).1 ((next-IsAcceptable sys.ctx (pending_config sys.pending)).0 a) in
        cc)
  checked drivers sys q (ok u) started c refuses =
      followed drivers sys q _ started refl
        ((next-IsAcceptable sys.ctx (pending_config sys.pending)).1 ((update_checks_iff _).0 c))

  queued :
      (drivers : Drivers) (sys : System rtos) (queue : Option rtos.Queue)
      → sys.ctx.queue ≡ queue
      → IsApplied drivers sys (apply_on drivers sys queue)
  unfolding apply_on apply_with
  queued drivers sys none e = not_started e
  queued drivers sys (some q) e = checked drivers sys q _ e refl (update_checks-RefusesInvalid _)

  -- An `apply` is refused and changes nothing when the component is not started or the pending
  -- configuration is not acceptable; else the pending configuration, with the defaults for its
  -- numbers, runs from then on, and the callback is called exactly if the code is success.
  pub provisioning_apply-IsApplied :
      (drivers : Drivers) (sys : System rtos)
      → IsApplied drivers sys (provisioning_apply rtos drivers sys)
  unfolding provisioning_apply update_config apply_on
  provisioning_apply-IsApplied drivers sys = queued drivers sys sys.ctx.queue refl

  write-stored :
      (mbufs : Mbufs) (drivers : Drivers) (sys : System rtos) {field : Field}
      {array : Pending → List ℕ} {size : ℕ} (at : TextField field array size) (om : List ℕ)
      → provisioning_write rtos mbufs drivers sys field om ≡ record {
        code = (write_field mbufs sys.pending field om).0;
        after = record sys { pending = (write_field mbufs sys.pending field om).1 };
        notified = none;
      }
  unfolding provisioning_write
  write-stored mbufs drivers sys at_wifi_ssid om = refl
  write-stored mbufs drivers sys at_wifi_password om = refl
  write-stored mbufs drivers sys at_wifi_id om = refl
  write-stored mbufs drivers sys at_ingest_url om = refl
  write-stored mbufs drivers sys at_time_url om = refl
  write-stored mbufs drivers sys at_device_id om = refl
  write-stored mbufs drivers sys at_device_token om = refl

  -- A write of a text while the strings are shared changes the running configuration.
  write-running :
      (mbufs : Mbufs) (drivers : Drivers) (sys : System rtos) {field : Field}
      {array : Pending → List ℕ} {size : ℕ} (at : TextField field array size) (om : List ℕ)
      → sys.shared ≡ true
      → CopiesWhole mbufs
      → IsPending sys.pending
      → IsText om
      → length om < size
      → ((provisioning_write rtos mbufs drivers sys field om).code ≡ success)
        × (setting at (running rtos (provisioning_write rtos mbufs drivers sys field om).after)
            ≡ some (strip om))
        × ((provisioning_write rtos mbufs drivers sys field om).after.ctx ≡ sys.ctx)
  unfolding running
  write-running mbufs drivers sys {field} {array} {size} at om shared copies i text lt =
      let (code, reads) = accepted_text mbufs sys.pending om copies i text at lt in
      let stores = write-stored mbufs drivers sys at om in
      rw (stores, shared)
        (
          code,
          setting-with_strings_of at (write_field mbufs sys.pending field om).1 sys.ctx.config
              ∙ ap some reads,
          refl,
        )

  -- After an `apply` that is accepted, a text that is written to a field is in the running
  -- configuration at once, with no `apply` and no check of it.
  pub write-after_apply :
      (mbufs : Mbufs) (drivers later : Drivers) (sys : System rtos) (q : rtos.Queue) {field : Field}
      {array : Pending → List ℕ} {size : ℕ} (at : TextField field array size) (om : List ℕ)
      → sys.ctx.queue ≡ some q
      → IsAcceptable (pending_config sys.pending)
      → CopiesWhole mbufs
      → IsPending sys.pending
      → IsText om
      → length om < size
      → setting at (
          running rtos
            (provisioning_write rtos mbufs later
              (provisioning_apply rtos drivers sys).after
              field
              om).after)
        ≡ some (strip om)
  write-after_apply mbufs drivers later sys q {field} at om e ok_config copies i text lt =
      after (provisioning_apply-IsApplied drivers sys)
    where
      after :
          {a : Access rtos}
          → IsApplied drivers sys a
          → setting at (running rtos (provisioning_write rtos mbufs later a.after field om).after)
            ≡ some (strip om)
      after (not_started none_made) = cc
      after (not_accepted refused) = absurd (refused ok_config)
      after (in_force {a} q started accepts runs same shared outcome) =
          (write-running mbufs later a.after at om shared copies (subst IsPending (sym same) i) text
            lt).1
