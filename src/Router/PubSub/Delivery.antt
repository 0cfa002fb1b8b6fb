-- ===== src/Router/PubSub/Delivery.antt =====
-- CrazyRouters.hpp, `PubSubDataRouter::produce`: who is called.
use multi_market_prices.Prelude.{
  ℕ, suc, ◌≡◌, refl, ◌↔◌, inl, inr, Option-cases, Bool, true, false, not, none, some, List, [], ◌∷◌,
  ◌++◌, Eq, ◌==◌, arith, if◌then◌else◌, is_some, is_empty, Map, lookup, keys, IsDistinct,
  contains-keys, contains, All,
}
use multi_market_prices.Router.PubSub.{
  PubSubDataRouter, Call, data_call, keyed_call, data_calls, keyed_calls, produce,
}
use multi_market_prices.Router.PubSub.Views.{subscription}
use multi_market_prices.Router.PubSub.Invariant.{IsConsistent}

module _ {K S C KC D : Type 0} ⦃eS : Eq S⦄ where
  -- How often a subscriber is called as one of the key, and as one of everything.
  abbrev pub data_count : S → List (Call K S C KC D) → ℕ
  data_count s [] = 0
  data_count s (data_call t c d ∷ cs) = if t == s then suc (data_count s cs) else data_count s cs
  data_count s (keyed_call t c k d ∷ cs) = data_count s cs

  abbrev pub keyed_count : S → List (Call K S C KC D) → ℕ
  keyed_count s [] = 0
  keyed_count s (data_call t c d ∷ cs) = keyed_count s cs
  keyed_count s (keyed_call t c k d ∷ cs) =
      if t == s then suc (keyed_count s cs) else keyed_count s cs

  keyed_count-data_calls :
      (s : S) (m : Map S C) (d : D) (cs : List (Call K S C KC D))
      → keyed_count s (data_calls m d ++ cs) ≡ keyed_count s cs
  keyed_count-data_calls s [] d cs = refl
  keyed_count-data_calls s ((t, c) ∷ m) d cs = keyed_count-data_calls s m d cs

  data_count_absent :
      (s : S) (m : Map S C) (d : D) (cs : List (Call K S C KC D))
      → contains s (keys m) ≡ false
      → data_count s (data_calls m d ++ cs) ≡ data_count s cs
  unfolding contains
  data_count_absent s [] d cs h = refl
  data_count_absent s ((t, c) ∷ m) d cs h = ground (arith, data_count_absent s m d cs)

  data_count-data_calls :
      (s : S) (m : Map S C) (d : D) (cs : List (Call K S C KC D))
      → IsDistinct (keys m)
      → data_count s cs ≡ 0
      → data_count s (data_calls m d ++ cs) ≡ (if is_some (lookup s m) then 1 else 0)
  unfolding lookup
  data_count-data_calls s [] d cs u z = z
  data_count-data_calls s ((t, c) ∷ m) d cs u z =
      ground (arith, data_count_absent s m d cs, data_count-data_calls s m d cs u.1)

module _ {K S KC D : Type 0} (C : Type 0) ⦃eS : Eq S⦄ where
  data_count-keyed_calls :
      (s : S) (m : Map S KC) (k : K) (d : D) → data_count s (keyed_calls {C = C} m k d) ≡ 0
  data_count-keyed_calls s [] k d = refl
  data_count-keyed_calls s ((t, c) ∷ m) k d = data_count-keyed_calls s m k d

  keyed_count_absent :
      (s : S) (m : Map S KC) (k : K) (d : D)
      → contains s (keys m) ≡ false
      → keyed_count s (keyed_calls {C = C} m k d) ≡ 0
  unfolding contains
  keyed_count_absent s [] k d h = refl
  keyed_count_absent s ((t, c) ∷ m) k d h = ground (arith, keyed_count_absent s m k d)

  keyed_count-keyed_calls :
      (s : S) (m : Map S KC) (k : K) (d : D)
      → IsDistinct (keys m)
      → keyed_count s (keyed_calls {C = C} m k d) ≡ (if is_some (lookup s m) then 1 else 0)
  unfolding lookup
  keyed_count-keyed_calls s [] k d u = refl
  keyed_count-keyed_calls s ((t, c) ∷ m) k d u =
      ground (arith, keyed_count_absent s m k d, keyed_count-keyed_calls s m k d u.1)

module _ {K S C KC D : Type 0} ⦃eK : Eq K⦄ ⦃eS : Eq S⦄ where
  -- A call of the callback that is on record, with what was produced.
  abbrev pub IsDue : PubSubDataRouter K S C KC → K → D → Call K S C KC D → Type 0
  IsDue r key d (data_call s c e) = (subscription r key s ≡ some c) × (e ≡ d)
  IsDue r key d (keyed_call s c k e) =
      (lookup s r.everything_subscribers ≡ some c) × (k ≡ key) × (e ≡ d)

  -- What `produce` owes: exactly one call to each subscriber of the key and to each of everything.
  pub record Delivers (r : PubSubDataRouter K S C KC) (key : K) (d : D)
      (out : Bool × List (Call K S C KC D)) : Type 0 where
    pub to_key : (s : S) → data_count s out.1 ≡ (if is_some (subscription r key s) then 1 else 0)
    pub to_everything :
        (s : S)
        → keyed_count s out.1 ≡ (if is_some (lookup s r.everything_subscribers) then 1 else 0)
    pub due : All (IsDue r key d) out.1
    pub reported : (out.1 ≡ []) ↔ (out.0 ≡ false)

  module _ (r : PubSubDataRouter K S C KC) (key : K) (d : D) where
    IsDue-data :
        (m : Map S C) (cs : List (Call K S C KC D))
        → ((s : S) (c : C) → lookup s m ≡ some c → subscription r key s ≡ some c)
        → IsDistinct (keys m)
        → All (IsDue r key d) cs
        → All (IsDue r key d) (data_calls m d ++ cs)
    unfolding lookup contains
    IsDue-data [] cs h u a = a
    IsDue-data ((s, c) ∷ m) cs h u a = (
      (h s c (ground arith), refl),
      IsDue-data m cs (λ t e le. h t e (ground (arith, contains-keys t m))) u.1 a,
    )

    IsDue-keyed :
        (m : Map S KC)
        → ((s : S) (c : KC) → lookup s m ≡ some c → lookup s r.everything_subscribers ≡ some c)
        → IsDistinct (keys m)
        → All (IsDue r key d) (keyed_calls m key d)
    unfolding lookup contains
    IsDue-keyed [] h u = tt
    IsDue-keyed ((s, c) ∷ m) h u = (
      (h s c (ground arith), refl, refl),
      IsDue-keyed m (λ t e le. h t e (ground (arith, contains-keys t m))) u.1,
    )

    produce_missing :
        lookup key r.routing_table ≡ none
        → produce r key d
          ≡ (not (is_empty r.everything_subscribers), keyed_calls r.everything_subscribers key d)
    unfolding produce
    produce_missing e = rw (e, produce)

    produce_found :
        (subs : Map S C)
        → lookup key r.routing_table ≡ some subs
        → produce r key d ≡ (true, data_calls subs d ++ keyed_calls r.everything_subscribers key d)
    unfolding produce
    produce_found subs e = rw (e, produce)

    Delivers-missing :
        IsConsistent r
        → lookup key r.routing_table ≡ none
        → Delivers r key d
            (not (is_empty r.everything_subscribers), keyed_calls r.everything_subscribers key d)
    unfolding subscription lookup
    Delivers-missing v e = record {
      to_key =
          λ s. ground (arith, data_count-keyed_calls {K = K} C s r.everything_subscribers key d);
      to_everything =
          λ s. keyed_count-keyed_calls C s r.everything_subscribers key d v.everything_distinct;
      due = IsDue-keyed r.everything_subscribers (λ s c h. h) v.everything_distinct;
      reported = ground arith;
    }

    Delivers-found :
        (subs : Map S C)
        → IsConsistent r
        → lookup key r.routing_table ≡ some subs
        → Delivers r key d (true, data_calls subs d ++ keyed_calls r.everything_subscribers key d)
    unfolding subscription lookup
    Delivers-found subs v e = record {
      to_key = λ s. ground (
        arith,
        v.tidy.distinct key,
        data_count-data_calls s subs d (keyed_calls r.everything_subscribers key d),
        data_count-keyed_calls {K = K} C s r.everything_subscribers key d,
      );
      to_everything = λ s. ground (
        arith,
        v.everything_distinct,
        keyed_count-data_calls s subs d (keyed_calls r.everything_subscribers key d),
        keyed_count-keyed_calls {K = K} C s r.everything_subscribers key d,
      );
      due =
          IsDue-data subs _ (λ s c h. ground arith) (ground (arith, v.tidy.distinct key))
            (IsDue-keyed r.everything_subscribers (λ s c h. h) v.everything_distinct);
      reported = ground (arith, v.tidy.no_empty_table key);
    }

    -- On a router whose tables are consistent, produce runs the callback of each subscriber of the key
    -- exactly once and that of each subscriber of everything exactly once, each the callback on record
    -- with the data produced; it runs no other, and reports false exactly where it ran none.
    pub produce-Delivers : IsConsistent r → Delivers r key d (produce r key d)
    produce-Delivers v = elim (Option-cases (lookup key r.routing_table)) [
      | inl e ↦ rw (produce_missing e) (Delivers-missing v e)
      | inr (subs, e) ↦ rw (produce_found subs e) (Delivers-found subs v e)
    ]
