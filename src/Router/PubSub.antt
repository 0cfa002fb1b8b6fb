-- ===== src/Router/PubSub.antt =====
-- CrazyRouters.hpp, `PubSubDataRouter`. A stored `std::function` is a value of an abstract type, and
-- `produce` returns the calls that it makes, in order. A callback does not call the router back while
-- `produce` walks the tables (that would invalidate the iterators).
pub mod Views
pub mod Invariant
pub mod Unregister
pub mod Histories
pub mod Delivery
use multi_market_prices.Prelude.{
  Bool, true, false, ◌||◌, Option, none, some, List, [], ◌∷◌, ◌++◌, Eq, if◌then◌else◌, is_empty,
  is_some, get_or, Map, lookup, assign, remove, contains, insert, erase, not,
}

pub record PubSubDataRouter (K S C KC : Type 0) : Type 0 where
  pub routing_table : Map K (Map S C)
  pub reg_id_to_keys : Map S (List K)
  pub everything_subscribers : Map S KC

-- One run of a callback: who registered it, the callback, and what it is given.
pub data Call (K S C KC D : Type 0) : Type 0 where
  data_call : S → C → D → Call K S C KC D
  keyed_call : S → KC → K → D → Call K S C KC D

-- The constructor: all tables are empty.
abbrev pub init : {K S C KC : Type 0} → PubSubDataRouter K S C KC
init = record { routing_table = []; reg_id_to_keys = []; everything_subscribers = [] }

abbrev pub data_calls : {K S C KC D : Type 0} → Map S C → D → List (Call K S C KC D)
data_calls [] d = []
data_calls ((s, c) ∷ m) d = data_call s c d ∷ data_calls m d

abbrev pub keyed_calls : {K S C KC D : Type 0} → Map S KC → K → D → List (Call K S C KC D)
keyed_calls [] k d = []
keyed_calls ((s, c) ∷ m) k d = keyed_call s c k d ∷ keyed_calls m k d

-- `m_regIdToKeys[subscriberId].insert(key)`
unfoldable pub add_key :
    {K S : Type 0} ⦃eK : Eq K⦄ ⦃eS : Eq S⦄ → K → S → Map S (List K) → Map S (List K)
add_key key id book = assign id (insert key (get_or (lookup id book) [])) book

module _ {K S C KC : Type 0} ⦃eK : Eq K⦄ ⦃eS : Eq S⦄ where
  unfoldable pub produce :
      {D : Type 0} → PubSubDataRouter K S C KC → K → D → Bool × List (Call K S C KC D)
  produce r key d = elim (lookup key r.routing_table) [
    | none ↦ (not (is_empty r.everything_subscribers), keyed_calls r.everything_subscribers key d)
    | some subs ↦ (true, data_calls subs d ++ keyed_calls r.everything_subscribers key d)
  ]

  unfoldable pub consume : PubSubDataRouter K S C KC → K → S → C → PubSubDataRouter K S C KC × Bool
  unfolding add_key
  consume r key id callback = elim (lookup key r.routing_table) [
    | some subs ↦ elim (lookup id subs) [
      | none ↦ (
        record r {
          routing_table = assign key (assign id callback subs) r.routing_table;
          reg_id_to_keys = add_key key id r.reg_id_to_keys;
        },
        true,
      )
      | some _ ↦ (r, false)
    ]
    | none ↦ (
      record r {
        routing_table = assign key ((id, callback) ∷ []) r.routing_table;
        reg_id_to_keys = add_key key id r.reg_id_to_keys;
      },
      true,
    )
  ]

  unfoldable pub consume_every_thing :
      PubSubDataRouter K S C KC → S → KC → PubSubDataRouter K S C KC × Bool
  consume_every_thing r id callback =
      if is_some (lookup id r.everything_subscribers)
      then (r, false)
      else (record r { everything_subscribers = assign id callback r.everything_subscribers }, true)

  unfoldable pub unregister_from_everything :
      PubSubDataRouter K S C KC → S → PubSubDataRouter K S C KC × Bool
  unregister_from_everything r id = (
    record r { everything_subscribers = remove id r.everything_subscribers },
    is_some (lookup id r.everything_subscribers),
  )

  unfoldable pub remove_from_routing_table :
      PubSubDataRouter K S C KC → K → S → PubSubDataRouter K S C KC × Bool
  remove_from_routing_table r key id = elim (lookup key r.routing_table) [
    | none ↦ (r, false)
    | some subs ↦ elim (lookup id subs) [
      | none ↦ (r, false)
      | some _ ↦
          let rest = remove id subs in
          if is_empty rest
          then (record r { routing_table = remove key r.routing_table }, true)
          else (record r { routing_table = assign key rest r.routing_table }, true)
    ]
  ]

  unfoldable pub remove_from_reg_id_store :
      PubSubDataRouter K S C KC → K → S → PubSubDataRouter K S C KC × Bool
  remove_from_reg_id_store r key id = elim (lookup id r.reg_id_to_keys) [
    | none ↦ (r, false)
    | some ks ↦
        let rest = erase key ks in
        if contains key ks
        then if is_empty rest
          then (record r { reg_id_to_keys = remove id r.reg_id_to_keys }, true)
          else (record r { reg_id_to_keys = assign id rest r.reg_id_to_keys }, true)
        else (r, false)
  ]

  -- `&&` runs its second call only where the first gives true.
  unfoldable pub unregister : PubSubDataRouter K S C KC → K → S → PubSubDataRouter K S C KC × Bool
  unregister r key id =
      let (r', found) = remove_from_routing_table r key id in
      if found then remove_from_reg_id_store r' key id else (r', false)

  -- The loop of `unregisterAll` over the keys of a subscriber.
  unfoldable pub remove_each : List K → S → PubSubDataRouter K S C KC → PubSubDataRouter K S C KC
  remove_each [] id r = r
  remove_each (key ∷ ks) id r = remove_each ks id (remove_from_routing_table r key id).0

  unfoldable pub unregister_all : PubSubDataRouter K S C KC → S → PubSubDataRouter K S C KC × Bool
  unregister_all r id = elim (lookup id r.reg_id_to_keys) [
    | none ↦ unregister_from_everything r id
    | some ks ↦
        let r' = remove_each ks id r in
        let r'' = record r' { reg_id_to_keys = remove id r'.reg_id_to_keys } in
        ((unregister_from_everything r'' id).0, true)
  ]
