-- ===== src/Session/Errors.antt =====
-- MDGateways/Binance/WebSockets.h, class `session`: how an error is classified and handled.
use multi_market_prices.Prelude.{Bool, false, ◌||◌, none, some, [], ◌∷◌, if◌then◌else◌}
use multi_market_prices.Session.{
  ErrorCode, Effect, async_resolve, async_read, ready, cancel_timer, arm_timer, Session, M, ◌>>◌,
  emit, send, send_pending,
}

pub data ErrorAction : Type 0 where
  ignore retry reconnect fatal : ErrorAction

pub data ErrorOrigin : Type 0 where
  connect resolve ssl_handshake handshake read write close : ErrorOrigin

unfoldable pub classify_error : Session → ErrorCode → ErrorAction
classify_error s ec =
    if ec.is_aborted
    then ignore
    else if s.connected_once
    then reconnect
    else if ec.is_handshake_failed || ec.is_ssl
    then fatal
    else reconnect

abbrev pub run : M
run = emit async_resolve

-- `is_open` is `m_ws.is_open()`.
unfoldable pub handle_retry : Bool → ErrorOrigin → M
unfolding send send_pending
handle_retry is_open write s =
    (emit cancel_timer >> λ s'.
    if is_open
    then elim s'.in_flight_command [ some c ↦ send c s' | none ↦ send_pending s' ]
    else run s')
      s
handle_retry is_open read s = (emit cancel_timer >> emit async_read) s
handle_retry is_open origin s = (emit cancel_timer >> run) s

-- The `switch` on the action.
unfoldable pub act_on : Bool → ErrorAction → ErrorOrigin → M
unfolding handle_retry
act_on is_open ignore origin s = (s, [])
act_on is_open retry origin s = (emit cancel_timer >> handle_retry is_open origin) s
act_on is_open reconnect origin s = (
  record s {
    in_flight = false;
    pending_subs_in_flight = false;
    pending_unsubs_in_flight = false;
    connected = false;
  },
  cancel_timer ∷ Effect.close ∷ arm_timer s.retry_delay_sec ∷ [],
)
act_on is_open fatal origin s = (s, cancel_timer ∷ Effect.close ∷ [])

-- `on_error`: the ready callback hears of every error that is not ignored.
unfoldable pub on_error : Bool → ErrorCode → ErrorOrigin → M
unfolding act_on classify_error
on_error is_open ec origin s = elim (classify_error s ec) [
  | ignore ↦ (s, [])
  | action ↦ (emit (ready (some ec)) >> act_on is_open action origin) s
]

-- The callback of the reconnect timer; `stopped` tells whether the wait was cancelled.
unfoldable pub on_timer : Bool → M
on_timer stopped s = if stopped then (s, []) else run s
