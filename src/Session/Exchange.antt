-- ===== src/Session/Exchange.antt =====
-- MDGateways/Binance/WebSockets.h, class `session`, seen with the exchange: the streams that will be
-- delivered on the present connection once every command handed to the throttler has been carried out.
-- The throttler and the strand keep the order of the commands.
use multi_market_prices.Prelude.{
  ◌≡◌, refl, true, not, ◌&&◌, ◌||◌, List, [], ◌∷◌, String, string_eq, contains, insert, erase,
  contains-insert, contains-erase, none, arith,
}
use multi_market_prices.Session.{Method, Effect, push, Session, M}
use multi_market_prices.Session.Commands.{subscribe_stream, unsubscribe_stream}
use multi_market_prices.Session.Connection.{on_write}

unfoldable pub insert_all : List String → List String → List String
insert_all [] server = server
insert_all (x ∷ xs) server = insert_all xs (insert x server)

unfoldable pub erase_all : List String → List String → List String
erase_all [] server = server
erase_all (x ∷ xs) server = erase_all xs (erase x server)

pub contains-insert_all :
    (x : String) (xs server : List String)
    → contains x (insert_all xs server) ≡ (contains x xs || contains x server)
unfolding insert_all contains
contains-insert_all x [] server = refl
contains-insert_all x (y ∷ xs) server =
    ground (arith, contains-insert_all x xs (insert y server), contains-insert y x server)

pub contains-erase_all :
    (x : String) (xs server : List String)
    → contains x (erase_all xs server) ≡ (not (contains x xs) && contains x server)
unfolding erase_all contains
contains-erase_all x [] server = refl
contains-erase_all x (y ∷ xs) server =
    ground (arith, contains-erase_all x xs (erase y server), contains-erase y x server)

-- What a command does at the exchange, and the commands among the effects.
abbrev pub carry_out : Method → List String → List String → List String
carry_out Method.subscribe params server = insert_all params server
carry_out Method.unsubscribe params server = erase_all params server

abbrev pub hears : List Effect → List String → List String
hears [] server = server
hears (push c ∷ es) server = hears es (carry_out c.method c.params server)
hears (_ ∷ es) server = hears es server

pub record World : Type 0 where
  pub session : Session
  pub server : List String

unfoldable pub exec : M → World → World
exec m w = record { session = (m w.session).0; server = hears (m w.session).1 w.server }

-- What happens on a connection that stays up.
pub data Event : Type 0 where
  subscribes unsubscribes : String → Event
  written : Event

unfoldable pub step : World → Event → World
step w (subscribes x) = exec (subscribe_stream x) w
step w (unsubscribes x) = exec (unsubscribe_stream x) w
step w written = exec (on_write true none) w
