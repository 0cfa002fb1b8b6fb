-- ===== src/Session/Commands.antt =====
-- MDGateways/Binance/WebSockets.h, class `session`: the four commands that reach it from the platform.
use Prim.Native.String
use multi_market_prices.Prelude.{
  ◌+◌, ◌||◌, not, some, [], ◌∷◌, String, string_eq, contains, insert, erase, if◌then◌else◌,
}
use multi_market_prices.Session.{Method, Command, M, check_and_cancel, send}

-- A command that cannot be sent now cancels its opposite, or waits.
unfoldable pub park_sub : String → M
unfolding check_and_cancel
park_sub stream s =
    let (left, cancelled) = check_and_cancel stream s.pending_unsubs in
    if cancelled
    then (record s { pending_unsubs = left }, [])
    else (record s { pending_subs = insert stream s.pending_subs }, [])

unfoldable pub park_unsub : String → M
unfolding check_and_cancel
park_unsub stream s =
    let (left, cancelled) = check_and_cancel stream s.pending_subs in
    if cancelled
    then (record s { pending_subs = left }, [])
    else (record s { pending_unsubs = insert stream s.pending_unsubs }, [])

-- The rest of `subscribeTradeOnStrand` and `subscribeDepthOnStrand`, once the stream is known not to
-- be live.
unfoldable pub subscribe_new : String → M
unfolding send park_sub
subscribe_new stream s =
    let s' = record s { live_subscriptions = insert stream s.live_subscriptions } in
    if s.in_flight || not s.connected
    then park_sub stream s'
    else let c : Command = record {
      method = Method.subscribe;
      id = s.msg_no + 1;
      params = stream ∷ [];
    } in
      send c (record s' { msg_no = s.msg_no + 1; in_flight_command = some c })

unfoldable pub subscribe_stream : String → M
unfolding subscribe_new
subscribe_stream stream s =
    if contains stream s.live_subscriptions then (s, []) else subscribe_new stream s

unfoldable pub unsubscribe_live : String → M
unfolding send park_unsub
unsubscribe_live stream s =
    let s' = record s { live_subscriptions = erase stream s.live_subscriptions } in
    if s.in_flight || not s.connected
    then park_unsub stream s'
    else let c : Command = record {
      method = Method.unsubscribe;
      id = s.msg_no + 1;
      params = stream ∷ [];
    } in
      send c (record s' { msg_no = s.msg_no + 1; in_flight_command = some c })

unfoldable pub unsubscribe_stream : String → M
unfolding unsubscribe_live
unsubscribe_stream stream s =
    if contains stream s.live_subscriptions then unsubscribe_live stream s else (s, [])

unfoldable pub subscribe_trade_on_strand : String → M
unfolding subscribe_stream
subscribe_trade_on_strand symbol = subscribe_stream (String.◌++◌ symbol "@trade")

unfoldable pub subscribe_depth_on_strand : String → M
unfolding subscribe_stream
subscribe_depth_on_strand symbol = subscribe_stream (String.◌++◌ symbol "@depth5")

unfoldable pub unsubscribe_trade_on_strand : String → M
unfolding unsubscribe_stream
unsubscribe_trade_on_strand symbol = unsubscribe_stream (String.◌++◌ symbol "@trade")

unfoldable pub unsubscribe_depth_on_strand : String → M
unfolding unsubscribe_stream
unsubscribe_depth_on_strand symbol = unsubscribe_stream (String.◌++◌ symbol "@depth5")
