-- ===== src/Rest/Exchange.antt =====
-- MDGateways/Binance/RestApi.cpp, class `BinanceRestClient`, with the asynchronous operation that is
-- outstanding: the client starts one at a time, and the next event is its completion or a new request.
use multi_market_prices.Prelude.{◌≡◌, Bool, false, Option, none, some, List, [], ◌∷◌, ◌++◌, String}
use multi_market_prices.Rest.{
  RestError, is_operation_aborted, RestClient, RestEffect, async_resolve, async_connect,
  async_handshake, async_write, async_read, arm_reconnect, JsonLib, PendingRequest, Handler,
  enqueue, on_reconnect_timer, on_resolve, on_connect, on_handshake, on_write, on_read,
}

pub data Operation : Type 0 where
  nothing resolving connecting shaking writing reading waiting : Operation

pub record Link (C : Type 0) : Type 0 where
  pub client : RestClient C
  pub operation : Operation

-- What the outstanding operation is once the effects are started.
abbrev pub outstanding : {C Obj : Type 0} → List (RestEffect C Obj) → Operation → Operation
outstanding [] o = o
outstanding (async_resolve ∷ es) o = outstanding es resolving
outstanding (async_connect ∷ es) o = outstanding es connecting
outstanding (async_handshake ∷ es) o = outstanding es shaking
outstanding (async_write t ∷ es) o = outstanding es writing
outstanding (async_read ∷ es) o = outstanding es reading
outstanding (arm_reconnect n ∷ es) o = outstanding es waiting
outstanding (_ ∷ es) o = outstanding es o

pub data RestEvent (C : Type 0) : Type 0 where
  launched : PendingRequest C → RestEvent C
  timed : RestEvent C
  resolved shaken written : Option RestError → RestEvent C
  joined : Option RestError → Option RestError → RestEvent C
  received : Option RestError → String → RestEvent C

abbrev pub is_aborted : Option RestError → Bool
is_aborted (some ec) = is_operation_aborted ec
is_aborted none = false

-- An event that the outstanding operation can bring; `operation_aborted` is only reported to an
-- operation that the client itself ends.
abbrev pub IsEnabled : {C : Type 0} → Operation → RestEvent C → Type 0
IsEnabled o (launched req) = Unit
IsEnabled o timed = o ≡ waiting
IsEnabled o (resolved ec) = (o ≡ resolving) × (is_aborted ec ≡ false)
IsEnabled o (joined ec sni) = (o ≡ connecting) × (is_aborted ec ≡ false) × (is_aborted sni ≡ false)
IsEnabled o (shaken ec) = (o ≡ shaking) × (is_aborted ec ≡ false)
IsEnabled o (written ec) = (o ≡ writing) × (is_aborted ec ≡ false)
IsEnabled o (received ec body) = (o ≡ reading) × (is_aborted ec ≡ false)

module _ {C Obj Val : Type 0} (lib : JsonLib Obj Val) where
  -- The handler of an event.
  unfoldable pub handle : RestEvent C → Handler C Obj
  unfolding enqueue on_reconnect_timer on_resolve on_connect on_handshake on_write on_read
  handle (launched req) = enqueue lib req
  handle timed = on_reconnect_timer lib false
  handle (resolved ec) = on_resolve lib ec
  handle (joined ec sni) = on_connect lib ec sni
  handle (shaken ec) = on_handshake lib ec
  handle (written ec) = on_write lib ec
  handle (received ec body) = on_read lib ec body

  -- A completion takes the outstanding operation away.
  abbrev pub left_over : RestEvent C → Operation → Operation
  left_over (launched req) o = o
  left_over e o = nothing

  unfoldable pub step : RestEvent C → Link C → Link C × List (RestEffect C Obj)
  unfolding handle
  step e w =
      let h = handle e w.client in
      (record { client = h.0; operation = outstanding h.1 (left_over e w.operation) }, h.1)

  unfoldable pub run : List (RestEvent C) → Link C → Link C × List (RestEffect C Obj)
  unfolding step
  run [] w = (w, [])
  run (e ∷ es) w = let first = step e w in let rest = run es first.0 in (rest.0, first.1 ++ rest.1)
