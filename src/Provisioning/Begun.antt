-- ===== src/Provisioning/Begun.antt =====
-- What a start of the provisioning service leaves, and what an `apply` puts in force right after it.
use aetus.Base.{
  ◌≡◌, ◌≢◌, ◌⊎◌, refl, sym, ap, subst, ◌∙◌, Bool, true, false, Bool-cases, inl, inr, Option, none,
  some, arith, ◌==◌, if◌then◌else◌,
}
use aetus.Esp.{EspErr, esp_ok, esp_fail, guard, ◌>>◌, invalid_state, ok, is_ok}
use aetus.Rtos.{RtosQueue}
use aetus.Config.{Drivers, next_config, get_config, config_of}
use aetus.Config.Accepted.{IsAcceptable}
use aetus.Provisioning.{zero_pending, pending_config, sync_pending_from_runtime}
use aetus.Provisioning.Access.{System, Access, running, with_strings_of, provisioning_apply}
use aetus.Provisioning.Applied.{
  IsApplied, not_started, not_accepted, in_force, provisioning_apply-IsApplied,
}
use aetus.Provisioning.Begin.{
  Services, Request, Prov, with_services, start_provisioning, prepared, with_stack,
  ensure_nvs_initialized, no_link, watches_connection, name_of,
}
use aetus.Provisioning.Link.{Link, Host, provisioning_on_sync}
use aetus.Provisioning.Served.{Accepts, World, Reaches, IsServed, Reaches-IsServed}
use aetus.Provisioning.Takeover.{HasTexts, taken_over, sync-taken_over, taken_over-IsAcceptable}

module _ (rtos : RtosQueue) where
  start-sys :
      (request : Option Request) (services : Services) (prov : Prov rtos)
      → prov.link.started ≡ false
      → (start_provisioning rtos request services prov).1.sys ≡ (prepared rtos request prov).sys
  unfolding start_provisioning
  start-sys request services prov e =
      ap
        (λ b.
          (if b
            then (invalid_state, prov)
            else with_stack rtos request services (prepared rtos request prov)).1.sys)
        e
      ∙ ground arith

  -- After a start, what is pending is the running configuration, taken over.
  prepared-pending :
      (request : Option Request) (prov : Prov rtos) (q : rtos.Queue)
      → prov.sys.ctx.queue ≡ some q
      → prov.sys.shared ≡ false
      → HasTexts prov.sys.ctx.config
      → pending_config (prepared rtos request prov).sys.pending ≡ taken_over prov.sys.ctx.config
  unfolding prepared get_config running
  prepared-pending request prov q e unshared h =
      let config = prov.sys.ctx.config in
      let wiped = record prov.sys { pending = zero_pending; watched = false } in
      ap
        (λ o. pending_config (
          sync_pending_from_runtime
            (config_of rtos (record prov.sys.ctx { config = running rtos wiped }) o) zero_pending))
        e
      ∙ ap
          (λ b. pending_config (
            sync_pending_from_runtime
              (ok (if b then with_strings_of zero_pending config else config)) zero_pending))
          unshared
      ∙ sync-taken_over config h

  -- An `apply` right after a start keeps the running configuration, but that a string that was missing
  -- is empty and that the requests are authorized by the token, whatever the mode was.
  pub apply-start_provisioning :
      (request : Option Request) (services : Services) (drivers : Drivers) (prov : Prov rtos)
      (q : rtos.Queue)
      → prov.link.started ≡ false
      → prov.sys.ctx.queue ≡ some q
      → prov.sys.shared ≡ false
      → IsAcceptable prov.sys.ctx.config
      → HasTexts prov.sys.ctx.config
      → running rtos
          (provisioning_apply rtos drivers
            (start_provisioning rtos request services prov).1.sys).after
        ≡ next_config rtos prov.sys.ctx (taken_over prov.sys.ctx.config)
  unfolding prepared
  apply-start_provisioning request services drivers prov q idle e unshared a h =
      let same = prepared-pending request prov q e unshared h in
      let sys = (prepared rtos request prov).sys in
      ap (λ s. running rtos (provisioning_apply rtos drivers s).after)
        (start-sys request services prov idle)
      ∙ in_force-running (provisioning_apply-IsApplied rtos drivers sys) e
          (subst IsAcceptable (sym same) (taken_over-IsAcceptable prov.sys.ctx.config a))
      ∙ ap (next_config rtos prov.sys.ctx) same
    where
      in_force-running :
          {sys : System rtos} {x : Access rtos}
          → IsApplied rtos drivers sys x
          → sys.ctx.queue ≡ some q
          → IsAcceptable (pending_config sys.pending)
          → running rtos x.after ≡ next_config rtos sys.ctx (pending_config sys.pending)
      in_force-running (not_started none_made) e accepts = cc
      in_force-running (not_accepted refused) e accepts = absurd (refused accepts)
      in_force-running (in_force q started a runs same shared outcome) e accepts = runs

  -- What a start leaves: it failed and may be tried again, or the service has its timer and no client
  -- yet.
  pub data IsBegun : EspErr × Prov rtos → Type 0 where
    failed : {r : EspErr × Prov rtos} → r.0 ≢ esp_ok → r.1.link.started ≡ false → IsBegun r
    begun :
        {r : EspErr × Prov rtos}
        → r.0 ≡ esp_ok
        → r.1.link.started ≡ true
        → r.1.link.callout_initialized ≡ true
        → r.1.link.connected ≡ false
        → r.1.link.timer ≡ false
        → IsBegun r

  services-IsBegun :
      (sys : System rtos) (ready : Link) (a b c : Bool)
      → ready.started ≡ false
      → ready.callout_initialized ≡ true
      → ready.connected ≡ false
      → ready.timer ≡ false
      → IsBegun (
          with_services rtos
            (record { sys = sys; link = ready })
            (guard a esp_fail >> (guard b esp_fail >> guard c esp_fail)))
  services-IsBegun sys ready true true true s i d t = begun refl refl i d t
  services-IsBegun sys ready true true false s i d t = failed (λ e. cc) s
  services-IsBegun sys ready true false c s i d t = failed (λ e. cc) s
  services-IsBegun sys ready false b c s i d t = failed (λ e. cc) s

  not_ok : (e : EspErr) → is_ok e ≡ false → e ≢ esp_ok
  not_ok e n same = cc

  stack-IsBegun :
      (request : Option Request) (services : Services) (sys : System rtos) (watch : Bool)
      → IsBegun (
          with_stack rtos request services
            (record { sys = sys; link = record (no_link rtos) { check_watched = watch } }))
  stack-IsBegun request services sys watch =
      elim (Bool-cases (is_ok (ensure_nvs_initialized services))) [
        | inl y ↦ elim (Bool-cases (is_ok services.nimble)) [
          | inl y' ↦
              rw (y, y')
                (services-IsBegun sys
                  (record (no_link rtos) { check_watched = watch; callout_initialized = true })
                  (services.gatt_count == 0) (services.gatt_add == 0)
                  (services.name_set (name_of request) == 0) refl refl refl refl)
          | inr n' ↦ rw (y, n') (failed (not_ok services.nimble n') refl)
        ]
        | inr n ↦ rw n (failed (not_ok (ensure_nvs_initialized services) n) refl)
      ]

  -- A start is refused, and changes nothing, while the service runs. One of a service that does not
  -- run fails, and may be tried again, or leaves it with its timer and without a client.
  pub start_provisioning-IsBegun :
      (request : Option Request) (services : Services) (prov : Prov rtos)
      → ((prov.link.started ≡ true)
          × (start_provisioning rtos request services prov ≡ (invalid_state, prov)))
        ⊎ ((prov.link.started ≡ false) × IsBegun (start_provisioning rtos request services prov))
  unfolding start_provisioning prepared
  start_provisioning-IsBegun request services prov = elim (Bool-cases prov.link.started) [
    | inl y ↦ inl (
      y,
      ap
          (λ b.
            if b
            then (invalid_state, prov)
            else with_stack rtos request services (prepared rtos request prov))
          y,
    )
    | inr n ↦ inr (
      n,
      subst IsBegun
          (sym (
            ap
              (λ b.
                if b
                then (invalid_state, prov)
                else with_stack rtos request services (prepared rtos request prov))
              n))
          (stack-IsBegun request services (prepared rtos request prov).sys
            (watches_connection request)),
    )
  ]

  -- From the synchronisation after a start that succeeds on, over any run of events and with a stack
  -- that accepts the calls, either the service is advertised, no client is connected and no timer
  -- runs, or a client is connected, the handlers know its handle, and its timer is armed or its
  -- connection was ended.
  pub started-IsServed :
      (request : Option Request) (services : Services) (prov : Prov rtos) (host : Host) {w : World}
      → (start_provisioning rtos request services prov).0 ≡ esp_ok
      → Accepts host
      → Reaches host
          (record {
            link = provisioning_on_sync host (start_provisioning rtos request services prov).1.link;
            peer = none;
            closing = false;
          })
          w
      → IsServed w
  started-IsServed request services prov host e a run =
      elim (start_provisioning-IsBegun request services prov) [
        | inl (on, same) ↦ let refusal = ap (λ r. r.0) same in cc
        | inr (off, b) ↦ served b e run
      ]
    where
      served :
          {r : EspErr × Prov rtos} {w : World}
          → IsBegun r
          → r.0 ≡ esp_ok
          → Reaches host
              (record { link = provisioning_on_sync host r.1.link; peer = none; closing = false })
              w
          → IsServed w
      served (failed bad off) e run = absurd (bad e)
      served (begun {r} fine on callout alone quiet) e run =
          Reaches-IsServed host r.1.link a callout alone quiet run
