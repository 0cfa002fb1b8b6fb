-- ===== src/Config/Merging.antt =====
-- ConfigLib/ConfigLib.cpp, `merge`: which section a setting comes from.
use multi_market_prices.Prelude.{
  ◌≡◌, refl, Option, none, some, [], ◌∷◌, String, string_eq, if◌then◌else◌, keys, lookup, assign,
  lookup-assign, contains-keys, IsDistinct, eq_of_==, arith,
}
use multi_market_prices.Config.{Object, has, set_all, set_missing, merge}

abbrev pub or_else : {A : Type 0} → Option A → Option A → Option A
or_else none o = o
or_else (some a) o = some a

module _ {V : Type 0} where
  lookup-set_missing :
      (m res : Object V) (k : String)
      → lookup k (set_missing m res) ≡ or_else (lookup k res) (lookup k m)
  unfolding set_missing lookup
  lookup-set_missing [] res k = ground arith
  lookup-set_missing ((j, v) ∷ m) res k = ground (
    arith,
    lookup-set_missing m (if has j res then res else assign j v res) k,
    lookup-assign j k v res,
    eq_of_== j k,
  )

  lookup-set_all :
      (m res : Object V) (k : String)
      → IsDistinct (keys m)
      → lookup k (set_all m res) ≡ or_else (lookup k m) (lookup k res)
  unfolding set_all lookup
  lookup-set_all [] res k d = refl
  lookup-set_all ((j, v) ∷ m) res k d = ground (
    arith,
    lookup-set_all m (assign j v res) k d.1,
    lookup-assign j k v res,
    contains-keys j m,
    eq_of_== j k,
  )

  -- A setting is the application's own if it has one, else its group's, else the system's.
  pub lookup-merge :
      (app group system : Object V) (k : String)
      → IsDistinct (keys app)
      → lookup k (merge app group system)
        ≡ or_else (lookup k app) (or_else (lookup k group) (lookup k system))
  unfolding merge lookup
  lookup-merge app group system k d = ground (
    arith,
    lookup-set_missing system (set_missing group (set_all app [])) k,
    lookup-set_missing group (set_all app []) k,
    lookup-set_all app [] k d,
  )
