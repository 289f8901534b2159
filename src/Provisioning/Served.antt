-- ===== src/Provisioning/Served.antt =====
-- The connection over any run of events: the service is advertised or a client is connected, and the
-- timer ends each connection. What NimBLE does is documented: advertising ends with a connection or
-- an attempt of one, a connection that was terminated ends with a disconnect event, and after a reset
-- the host syncs again without one.
use aetus.Base.{
  ℕ, ◌≡◌, ◌⊎◌, refl, sym, ap, ◌∙◌, Bool, true, false, not, subst, inl, inr, Option, none, some,
  arith, ◌==◌, if◌then◌else◌,
}
use aetus.Provisioning.Link.{
  Link, Host, GapEvent, connect, disconnect, conn_update, adv_complete, provisioning_advertise,
  start_disconnect_timer, stop_disconnect_timer, disconnect_timeout, provisioning_gap_event,
  provisioning_on_sync,
}

-- The stack accepts what the handlers ask of it.
pub record Accepts (host : Host) : Type 0 where
  pub fields : host.adv_set_fields ≡ 0
  pub starts : (address : ℕ) → host.adv_start address ≡ 0
  pub address : ℕ
  pub infers : host.infer_auto ≡ some address
  pub terminates : (handle : ℕ) → host.terminate handle ≡ 0

-- The link with the connection that the stack has, and whether that was asked to end.
pub record World : Type 0 where
  pub link : Link
  pub peer : Option ℕ
  pub closing : Bool

-- The connection that a call of the timer's handler ends.
abbrev ends : Option ℕ → Option (ℕ × ℕ) → Bool
ends (some peer) (some (handle, answer)) = if handle == peer then answer == 0 else false
ends _ _ = false

-- Advertising that the stack ends.
abbrev pub silent : Link → Link
silent link = record link { advertising = false }

pub data Step (host : Host) (w : World) : World → Type 0 where
  syncs : w.peer ≡ none → Step host w (record w { link = provisioning_on_sync host w.link })
  connects :
      (handle : ℕ)
      → w.link.advertising ≡ true
      → Step host w (record {
        link = (provisioning_gap_event host (silent w.link) (connect 0 handle)).0;
        peer = some handle;
        closing = false;
      })
  fails :
      (status handle : ℕ)
      → w.link.advertising ≡ true
      → (status == 0) ≡ false
      → Step host w (record w {
        link = (provisioning_gap_event host (silent w.link) (connect status handle)).0;
      })
  disconnects :
      (handle reason : ℕ)
      → w.peer ≡ some handle
      → Step host w (record {
        link = (provisioning_gap_event host w.link (disconnect reason)).0;
        peer = none;
        closing = false;
      })
  updates :
      (status handle : ℕ)
      → Step host w
          (record w { link = (provisioning_gap_event host w.link (conn_update status handle)).0 })
  completes :
      w.link.advertising ≡ true
      → Step host w
          (record w { link = (provisioning_gap_event host (silent w.link) adv_complete).0 })
  others :
      (type : ℕ)
      → Step host w
          (record w { link = (provisioning_gap_event host w.link (GapEvent.unknown type)).0 })
  expires :
      w.link.timer ≡ true
      → Step host w (record w {
        link = record w.link { timer = false };
        closing = if ends w.peer (disconnect_timeout host w.link) then true else w.closing;
      })

pub data Reaches (host : Host) : World → World → Type 0 where
  here : {w : World} → Reaches host w w
  next : {w u v : World} → Reaches host w u → Step host u v → Reaches host w v

-- No client is connected and the service is advertised, or one is, for which the timer is armed or
-- whose connection ends.
abbrev pub IsWaiting : World → Type 0
IsWaiting w =
    (w.peer ≡ none)
    × (w.link.connected ≡ false)
    × (w.link.timer ≡ false)
    × (w.link.advertising ≡ true)

abbrev pub IsServing : World → Type 0
IsServing w =
    (w.peer ≡ some w.link.conn_handle)
    × (w.link.connected ≡ true)
    × (w.link.advertising ≡ false)
    × ((w.link.timer ≡ true) ⊎ (w.closing ≡ true))

abbrev pub IsServed : World → Type 0
IsServed w = (w.link.callout_initialized ≡ true) × (IsWaiting w ⊎ IsServing w)

advertise-accepted :
    (host : Host) (link : Link)
    → Accepts host
    → provisioning_advertise host link ≡ record link { advertising = true }
unfolding provisioning_advertise
advertise-accepted host link a = rw (a.fields, a.starts link.own_addr_type) refl

on_sync-accepted :
    (host : Host) (link : Link) (a : Accepts host)
    → provisioning_on_sync host link ≡ record link { own_addr_type = a.address; advertising = true }
unfolding provisioning_on_sync
on_sync-accepted host link a =
    rw (a.infers) (advertise-accepted host (record link { own_addr_type = a.address }) a)

timer_started :
    (handle : ℕ) (link : Link)
    → link.callout_initialized ≡ true
    → start_disconnect_timer handle link ≡ record link { conn_handle = handle; timer = true }
unfolding start_disconnect_timer
timer_started handle link c =
    ap (λ b. if not b then link else record link { conn_handle = handle; timer = true }) c

timer_stopped :
    (link : Link)
    → link.callout_initialized ≡ true
    → stop_disconnect_timer link ≡ record link { timer = false }
unfolding stop_disconnect_timer
timer_stopped link c = ap (λ b. if not b then link else record link { timer = false }) c

-- Advertising that is asked for again.
again-IsServed :
    (host : Host) (w : World)
    → Accepts host
    → w.link.advertising ≡ true
    → IsServed w
    → IsServed (record w { link = provisioning_advertise host (silent w.link) })
again-IsServed host w a adv (c, inl (e, f, g, h)) =
    subst (λ link. IsServed (record w { link = link }))
      (sym (advertise-accepted host (silent w.link) a)) (c, inl (e, f, g, refl))
again-IsServed host w a adv (c, inr (e, f, g, h)) = cc

failed :
    (host : Host) (link : Link) (status handle : ℕ)
    → (status == 0) ≡ false
    → (provisioning_gap_event host link (connect status handle)).0
      ≡ provisioning_advertise host link
unfolding provisioning_gap_event
failed host link status handle bad = rw bad refl

disconnected :
    (host : Host) (link : Link) (reason : ℕ)
    → Accepts host
    → link.callout_initialized ≡ true
    → (provisioning_gap_event host link (disconnect reason)).0
      ≡ record link { connected = false; timer = false; advertising = true }
unfolding provisioning_gap_event
disconnected host link reason a c =
    ap (provisioning_advertise host) (timer_stopped (record link { connected = false }) c)
    ∙ advertise-accepted host (record link { connected = false; timer = false }) a

-- The timer's handler ends the connection that there is.
timeout-ends :
    (host : Host) (w : World)
    → Accepts host
    → IsServing w
    → ends w.peer (disconnect_timeout host w.link) ≡ true
unfolding disconnect_timeout
timeout-ends host w a (e, f, g, h) =
    ap (λ o. ends o (disconnect_timeout host w.link)) e
    ∙ ap
        (λ b.
          ends (some w.link.conn_handle)
            (if not b then none else some (w.link.conn_handle, host.terminate w.link.conn_handle)))
        f
    ∙ asked w.link.conn_handle (host.terminate w.link.conn_handle) (a.terminates w.link.conn_handle)
  where
    asked : (handle answer : ℕ) → answer ≡ 0 → ends (some handle) (some (handle, answer)) ≡ true
    asked handle answer z = ground arith

-- Each event keeps the service advertised or the connection bounded.
Step-IsServed : (host : Host) {w v : World} → Accepts host → Step host w v → IsServed w → IsServed v
unfolding provisioning_gap_event
Step-IsServed host {w} a (syncs gone) (c, inl (e, f, g, h)) =
    subst (λ link. IsServed (record w { link = link })) (sym (on_sync-accepted host w.link a))
      (c, inl (e, f, g, refl))
Step-IsServed host {w} a (syncs gone) (c, inr (e, f, g, h)) = cc
Step-IsServed host {w} a (connects handle adv) (c, s) =
    subst (λ link. IsServed (record { link = link; peer = some handle; closing = false }))
      (sym (timer_started handle (record w.link { connected = true; advertising = false }) c))
      (c, inr (refl, refl, refl, inl refl))
Step-IsServed host {w} a (fails status handle adv bad) s =
    subst (λ link. IsServed (record w { link = link }))
      (sym (failed host (silent w.link) status handle bad)) (again-IsServed host w a adv s)
Step-IsServed host {w} a (disconnects handle reason e) (c, s) =
    subst (λ link. IsServed (record { link = link; peer = none; closing = false }))
      (sym (disconnected host w.link reason a c)) (c, inl (refl, refl, refl, refl))
Step-IsServed host {w} a (updates status handle) s = s
Step-IsServed host {w} a (completes adv) s = again-IsServed host w a adv s
Step-IsServed host {w} a (others type) s = s
Step-IsServed host {w} a (expires armed) (c, inl (e, f, g, h)) = cc
Step-IsServed host {w} a (expires armed) (c, inr (e, f, g, h)) = (
  c,
  inr (e, f, g, inr (ap (λ b. if b then true else w.closing) (timeout-ends host w a (e, f, g, h)))),
)

run-IsServed :
    (host : Host) {u w : World} → Accepts host → Reaches host u w → IsServed u → IsServed w
run-IsServed host a here s = s
run-IsServed host a (next before step) s = Step-IsServed host a step (run-IsServed host a before s)

-- Over any run of events from the first synchronisation of the host on, with a stack that accepts
-- the calls, either the service is advertised, no client is connected and no timer runs, or a client
-- is connected, the handlers know its handle, and its timer is armed or its connection was ended.
pub Reaches-IsServed :
    (host : Host) (link : Link) {w : World}
    → Accepts host
    → link.callout_initialized ≡ true
    → link.connected ≡ false
    → link.timer ≡ false
    → Reaches host
        (record { link = provisioning_on_sync host link; peer = none; closing = false })
        w
    → IsServed w
Reaches-IsServed host link a c f t run = run-IsServed host a run (
    subst (λ l. IsServed (record { link = l; peer = none; closing = false }))
      (sym (on_sync-accepted host link a)) (c, inl (refl, f, t, refl)))
