-- ===== src/Session.antt =====
-- MDGateways/Binance/WebSockets.h, class `session`: the state, and the commands that it sends. Every
-- operation runs on the strand, one at a time; it returns the new state and what it starts, in order.
-- A stored command is a record in place of its JSON text, and the empty text is `none`; `m_msgNo` is a
-- number that does not overflow, and the constructor leaves it unset, so `init` takes it.
pub mod Commands
pub mod Errors
pub mod Connection
pub mod Exchange
pub mod Sync
pub mod Settling
pub mod Races
pub mod Lifecycle
pub mod Recovery
pub mod Stale
mod Tests
use multi_market_prices.Prelude.{
  ℕ, ◌+◌, Bool, true, false, Option, none, some, List, [], ◌∷◌, ◌++◌, String, string_eq, is_empty,
  contains, erase, if◌then◌else◌,
}

pub data Method : Type 0 where
  subscribe unsubscribe : Method

-- `{"method": …, "id": …, "params": […]}`
pub record Command : Type 0 where
  pub method : Method
  pub id : ℕ
  pub params : List String

-- What the code asks of an error code: is it `operation_aborted`, `condition::handshake_failed`, of
-- the SSL category, `websocket::error::closed`?
pub record ErrorCode : Type 0 where
  pub is_aborted : Bool
  pub is_handshake_failed : Bool
  pub is_ssl : Bool
  pub is_closed : Bool

pub data Effect : Type 0 where
  async_resolve async_connect async_ssl_handshake async_handshake async_read : Effect
  -- A command handed to the throttler, which writes it and then calls `on_write`.
  push : Command → Effect
  ready : Option ErrorCode → Effect
  price : String → Effect
  cancel_timer close : Effect
  arm_timer : ℕ → Effect

pub record Session : Type 0 where
  pub in_flight : Bool
  pub pending_subs_in_flight : Bool
  pub pending_unsubs_in_flight : Bool
  pub in_flight_command : Option Command
  pub connected : Bool
  pub connected_once : Bool
  pub msg_no : ℕ
  pub retry_delay_sec : ℕ
  pub live_subscriptions : List String
  pub pending_subs : List String
  pub pending_unsubs : List String

-- The constructor.
unfoldable pub init : ℕ → ℕ → Session
init msg_no retry_delay_sec = record {
  in_flight = false;
  pending_subs_in_flight = false;
  pending_unsubs_in_flight = false;
  in_flight_command = none;
  connected = false;
  connected_once = false;
  msg_no = msg_no;
  retry_delay_sec = retry_delay_sec;
  live_subscriptions = [];
  pending_subs = [];
  pending_unsubs = [];
}

abbrev pub M : Type 0
M = Session → Session × List Effect

infixl 5 ◌>>◌
abbrev pub ◌>>◌ : M → M → M
◌>>◌ m k s = ((k (m s).0).0, (m s).1 ++ (k (m s).0).1)

abbrev pub skip : M
skip s = (s, [])

abbrev pub emit : Effect → M
emit e s = (s, e ∷ [])

-- `checkAndCancel`: the set without the stream, and whether it was there.
unfoldable pub check_and_cancel : String → List String → List String × Bool
check_and_cancel stream candidates =
    if contains stream candidates then (erase stream candidates, true) else (candidates, false)

-- `send`: hands the command to the throttler.
unfoldable pub send : Command → M
send c s = (record s { in_flight = true }, push c ∷ [])

-- `sendPendingSubs` also reports whether it sent anything: whether there are pending subscriptions.
unfoldable pub send_pending_subs : M
unfolding send
send_pending_subs s =
    if is_empty s.pending_subs
    then (s, [])
    else let c : Command = record {
      method = Method.subscribe;
      id = s.msg_no + 1;
      params = s.pending_subs;
    } in
      (record (send c s).0 { msg_no = s.msg_no + 1; pending_subs_in_flight = true }, (send c s).1)

unfoldable pub send_pending_unsubs : M
unfolding send
send_pending_unsubs s =
    if is_empty s.pending_unsubs
    then (s, [])
    else let c : Command = record {
      method = Method.unsubscribe;
      id = s.msg_no + 1;
      params = s.pending_unsubs;
    } in
      (record (send c s).0 { msg_no = s.msg_no + 1; pending_unsubs_in_flight = true }, (send c s).1)

-- `if (!sendPendingSubs()) sendPendingUnsubs();`
unfoldable pub send_pending : M
unfolding send_pending_subs send_pending_unsubs
send_pending s = if is_empty s.pending_subs then send_pending_unsubs s else send_pending_subs s
