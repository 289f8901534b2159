-- ===== src/Provisioning/Link.antt =====
-- The connection of the provisioning service: the GAP events, the timer that ends a connection, and
-- the advertising. What NimBLE answers to the calls of a handler is an input of it.
use aetus.Base.{ℕ, Bool, true, false, not, Option, none, some, List, [], ◌∷◌, ◌==◌, if◌then◌else◌}

-- The state of the connection in `s_prov`, and what the stack keeps for it: whether the service is
-- advertised and whether the timer is armed.
pub record Link : Type 0 where
  pub started : Bool
  pub connected : Bool
  pub callout_initialized : Bool
  pub conn_handle : ℕ
  pub own_addr_type : ℕ
  pub check_watched : Bool
  pub advertising : Bool
  pub timer : Bool

-- The parameters of a connection: interval, latency and supervision timeout.
pub record ConnDesc : Type 0 where
  pub itvl : ℕ
  pub latency : ℕ
  pub supervision_timeout : ℕ

-- What NimBLE answers.
pub record Host : Type 0 where
  pub adv_set_fields : ℕ
  pub adv_start : ℕ → ℕ
  pub infer_auto : Option ℕ
  pub conn_find : ℕ → Option ConnDesc
  pub terminate : ℕ → ℕ

-- A call of `connection_check_cb`.
pub record Check : Type 0 where
  pub handle : ℕ
  pub status : ℕ
  pub desc : ConnDesc

pub data GapEvent : Type 0 where
  connect : ℕ → ℕ → GapEvent
  disconnect : ℕ → GapEvent
  conn_update : ℕ → ℕ → GapEvent
  adv_complete : GapEvent
  unknown : ℕ → GapEvent

unfoldable pub provisioning_advertise : Host → Link → Link
provisioning_advertise host link =
    if not (host.adv_set_fields == 0)
    then link
    else if not (host.adv_start link.own_addr_type == 0)
    then link
    else record link { advertising = true }

abbrev desc_or_zero : Option ConnDesc → ConnDesc
desc_or_zero none = record { itvl = 0; latency = 0; supervision_timeout = 0 }
desc_or_zero (some desc) = desc

unfoldable pub notify_connection_check : Host → Link → ℕ → ℕ → List Check
notify_connection_check host link handle status =
    if not link.check_watched
    then []
    else record { handle = handle; status = status; desc = desc_or_zero (host.conn_find handle) }
      ∷ []

unfoldable pub start_disconnect_timer : ℕ → Link → Link
start_disconnect_timer handle link =
    if not link.callout_initialized
    then link
    else record link { conn_handle = handle; timer = true }

unfoldable pub stop_disconnect_timer : Link → Link
stop_disconnect_timer link =
    if not link.callout_initialized then link else record link { timer = false }

-- The handle that is terminated, with the answer, if the link is connected.
unfoldable pub disconnect_timeout : Host → Link → Option (ℕ × ℕ)
disconnect_timeout host link =
    if not link.connected then none else some (link.conn_handle, host.terminate link.conn_handle)

unfoldable pub provisioning_gap_event : Host → Link → GapEvent → Link × List Check
unfolding provisioning_advertise notify_connection_check start_disconnect_timer
    stop_disconnect_timer
provisioning_gap_event host link (connect status handle) =
    if status == 0
    then (let up = start_disconnect_timer handle (record link { connected = true }) in
        (up, notify_connection_check host up handle status))
    else (provisioning_advertise host link, [])
provisioning_gap_event host link (disconnect reason) =
    (provisioning_advertise host (stop_disconnect_timer (record link { connected = false })), [])
provisioning_gap_event host link (conn_update status handle) =
    (link, notify_connection_check host link handle status)
provisioning_gap_event host link adv_complete = (provisioning_advertise host link, [])
provisioning_gap_event host link (unknown type) = (link, [])

abbrev with_address : Host → Link → Option ℕ → Link
with_address host link none = link
with_address host link (some address) =
    provisioning_advertise host (record link { own_addr_type = address })

unfoldable pub provisioning_on_sync : Host → Link → Link
unfolding provisioning_advertise
provisioning_on_sync host link = with_address host link host.infer_auto
