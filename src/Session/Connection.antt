-- ===== src/Session/Connection.antt =====
-- MDGateways/Binance/WebSockets.h, class `session`: the handlers of the asynchronous operations.
use multi_market_prices.Prelude.{
  Bool, true, false, ◌||◌, Option, none, some, List, [], ◌∷◌, String, string_eq, insert,
  if◌then◌else◌, is_some,
}
use text.Mathlib.Text.{find?}
use multi_market_prices.Session.{
  ErrorCode, Effect, async_connect, async_ssl_handshake, async_handshake, async_read, ready, price,
  Session, M, ◌>>◌, emit, check_and_cancel, send, send_pending_unsubs, send_pending,
}
use multi_market_prices.Session.Errors.{ErrorOrigin, on_error}

-- `is_open` is `m_ws.is_open()`, which only a retry asks for.
-- The loop over the live streams: each cancels its unsubscription, or is to be sent again.
unfoldable pub resubscribe : List String → Session → Session
unfolding check_and_cancel
resubscribe [] s = s
resubscribe (stream ∷ live) s =
    let (left, cancelled) = check_and_cancel stream s.pending_unsubs in
    resubscribe live (
      if cancelled
      then record s { pending_unsubs = left }
      else record s { pending_subs = insert stream s.pending_subs })

-- `if (!m_inFlightComand.empty()) send(m_inFlightComand); else if (!sendPendingSubs()) …`
unfoldable pub resend : M
unfolding send send_pending
resend s = elim s.in_flight_command [ some c ↦ send c s | none ↦ send_pending s ]

module _ (is_open : Bool) where
  unfoldable pub on_resolve : Option ErrorCode → M
  unfolding on_error
  on_resolve (some ec) s = on_error is_open ec ErrorOrigin.resolve s
  on_resolve none s = emit async_connect s

  -- `sni` is the outcome of `SSL_set_tlsext_host_name`, with the error that it leaves.
  unfoldable pub on_connect : Option ErrorCode → Option ErrorCode → M
  unfolding on_error
  on_connect (some ec) sni s = on_error is_open ec ErrorOrigin.connect s
  on_connect none (some ec) s = on_error is_open ec ErrorOrigin.connect s
  on_connect none none s = emit async_ssl_handshake s

  unfoldable pub on_ssl_handshake : Option ErrorCode → M
  unfolding on_error
  on_ssl_handshake (some ec) s = on_error is_open ec ErrorOrigin.ssl_handshake s
  on_ssl_handshake none s = emit async_handshake s

  unfoldable pub on_handshake : Option ErrorCode → M
  unfolding on_error resend resubscribe
  on_handshake (some ec) s = on_error is_open ec ErrorOrigin.handshake s
  on_handshake none s =
      (resend >> emit (ready none) >> emit async_read)
        (resubscribe s.live_subscriptions (record s { connected = true; connected_once = true }))

  -- The error is `none`, or what was read is the payload.
  unfoldable pub on_read : Option ErrorCode → String → M
  unfolding on_error
  on_read (some ec) payload s = on_error is_open ec ErrorOrigin.read s
  on_read none payload s =
      if is_some (find? payload "@trade") || is_some (find? payload "@depth")
      then (emit (price payload) >> emit async_read) s
      else emit async_read s

  unfoldable pub on_write : Option ErrorCode → M
  unfolding on_error send_pending send_pending_unsubs
  on_write (some ec) s = on_error is_open ec ErrorOrigin.write (record s {
    in_flight = false;
    pending_subs_in_flight = false;
    pending_unsubs_in_flight = false;
  })
  on_write none s = elim s.in_flight_command [
    | some _ ↦ send_pending (record s { in_flight = false; in_flight_command = none })
    | none ↦
        if s.pending_subs_in_flight
        then send_pending_unsubs
            (record s { in_flight = false; pending_subs_in_flight = false; pending_subs = [] })
        else if s.pending_unsubs_in_flight
        then send_pending
            (record s { in_flight = false; pending_unsubs_in_flight = false; pending_unsubs = [] })
        else (record s { in_flight = false }, [])
  ]

  unfoldable pub on_close : Option ErrorCode → M
  unfolding on_error
  on_close none s = (s, [])
  on_close (some ec) s = if ec.is_closed then (s, []) else on_error is_open ec ErrorOrigin.close s

unfoldable pub stop : M
stop = emit Effect.close
