-- ===== src/Platform/Routing.antt =====
-- MDGateways/PlatformComm/PlatformComm.cpp: the topics to which the prices of a key go.
use multi_market_prices.Prelude.{
  ◌≡◌, ◌≢◌, refl, ap, ◌∙◌, Bool, true, false, not, ◌&&◌, ◌||◌, some, List, [], ◌∷◌, String,
  string_eq, ◌==◌, if◌then◌else◌, get_or, lookup, contains, insert, erase, IsDistinct,
  lookup-assign, lookup-remove, contains-insert, contains-erase, insert-IsDistinct,
  erase-IsDistinct, insert-ne-nil, contains-nil, contains-cons, arith, eq_of_==,
}
use multi_market_prices.Platform.{
  Routes, handle_book_keeping, handle_book_keeping_for_subscription,
  handle_book_keeping_for_unsubscription,
}

-- The topics of a key.
abbrev pub topics_of : Routes → String → List String
topics_of t key = get_or (lookup key t) []

-- Every key that is in the table has a topic, and each of its topics once.
pub record IsRouted (t : Routes) : Type 0 where
  pub no_empty : (key : String) → lookup key t ≢ some []
  pub distinct : (key : String) → IsDistinct (topics_of t key)

module _ (t : Routes) (key topic : String) where
  subscription-IsRouted : IsRouted t → IsRouted (handle_book_keeping_for_subscription key topic t).0
  unfolding handle_book_keeping_for_subscription contains
  subscription-IsRouted v = record {
    no_empty = λ k. ground (
      arith,
      v.no_empty k,
      lookup-assign key k (topic ∷ []) t,
      lookup-assign key k (insert topic (topics_of t key)) t,
      insert-ne-nil topic (topics_of t key),
    );
    distinct = λ k. ground (
      arith,
      v.distinct k,
      v.distinct key,
      lookup-assign key k (topic ∷ []) t,
      lookup-assign key k (insert topic (topics_of t key)) t,
      insert-IsDistinct topic (topics_of t key),
    );
  }

  unsubscription-IsRouted :
      IsRouted t → IsRouted (handle_book_keeping_for_unsubscription key topic t).0
  unfolding handle_book_keeping_for_unsubscription
  unsubscription-IsRouted v = record {
    no_empty = λ k. ground (
      arith,
      v.no_empty k,
      lookup-remove key k t,
      lookup-assign key k (erase topic (topics_of t key)) t,
    );
    distinct = λ k. ground (
      arith,
      v.distinct k,
      v.distinct key,
      lookup-remove key k t,
      lookup-assign key k (erase topic (topics_of t key)) t,
      erase-IsDistinct topic (topics_of t key),
    );
  }

  pub handle_book_keeping-IsRouted :
      (is_sub : Bool) → IsRouted t → IsRouted (handle_book_keeping key topic is_sub t).0
  unfolding handle_book_keeping
  handle_book_keeping-IsRouted true v = subscription-IsRouted v
  handle_book_keeping-IsRouted false v = unsubscription-IsRouted v

  contains-subscription :
      (k x : String)
      → contains x (topics_of (handle_book_keeping_for_subscription key topic t).0 k)
        ≡ ((key == k && topic == x) || contains x (topics_of t k))
  unfolding handle_book_keeping_for_subscription
  contains-subscription k x = ground (
    arith,
    lookup-assign key k (topic ∷ []) t,
    lookup-assign key k (insert topic (topics_of t key)) t,
    contains-insert topic x (topics_of t key),
    contains-cons x topic [],
    contains-nil x [] refl,
    eq_of_== key k,
  )

  contains-unsubscription :
      (k x : String)
      → contains x (topics_of (handle_book_keeping_for_unsubscription key topic t).0 k)
        ≡ (not (key == k && topic == x) && contains x (topics_of t k))
  unfolding handle_book_keeping_for_unsubscription
  contains-unsubscription k x = ground (
    arith,
    lookup-remove key k t,
    lookup-assign key k (erase topic (topics_of t key)) t,
    contains-erase topic x (topics_of t key),
    contains-nil x [] refl,
    eq_of_== key k,
    contains-nil x (erase topic (topics_of t key)),
    eq_of_== topic x,
  )

  reported_sub :
      (handle_book_keeping_for_subscription key topic t).1 ≡ not (contains topic (topics_of t key))
  unfolding handle_book_keeping_for_subscription
  reported_sub = ground (arith, contains-nil topic [] refl)

  reported_unsub :
      (handle_book_keeping_for_unsubscription key topic t).1 ≡ contains topic (topics_of t key)
  unfolding handle_book_keeping_for_unsubscription
  reported_unsub = ground (arith, contains-nil topic [] refl)

  -- Subscribing makes the topic one of the key's, unsubscribing makes it none of the key's, and no
  -- other pair of a key and a topic changes; the operation reports whether the table changed, that is,
  -- whether the topic was not one of the key's (was one, for unsubscribing).
  pub handle_book_keeping_lem :
      (is_sub : Bool) (k x : String)
      → (contains x (topics_of (handle_book_keeping key topic is_sub t).0 k)
          ≡ (if key == k && topic == x then is_sub else contains x (topics_of t k)))
        × ((handle_book_keeping key topic is_sub t).1 ≡ (
            if is_sub
            then not (contains topic (topics_of t key))
            else contains topic (topics_of t key)))
  unfolding handle_book_keeping
  handle_book_keeping_lem true k x = (ground (arith, contains-subscription k x), reported_sub)
  handle_book_keeping_lem false k x = (ground (arith, contains-unsubscription k x), reported_unsub)

-- A message that subscribes (true) or unsubscribes a topic of a key.
abbrev pub Book : Type 0
Book = Bool × String × String

unfoldable pub keep_books : List Book → Routes → Routes
unfolding handle_book_keeping
keep_books [] t = t
keep_books ((is_sub, key, topic) ∷ books) t =
    keep_books books (handle_book_keeping key topic is_sub t).0

-- What the last message about a key and a topic said, and `before` if there is none.
abbrev pub last_word : List Book → String → String → Bool → Bool
last_word [] k x before = before
last_word ((is_sub, key, topic) ∷ books) k x before =
    last_word books k x (if key == k && topic == x then is_sub else before)

pub keep_books_from :
    (books : List Book) (t : Routes)
    → ((k x : String)
        → contains x (topics_of (keep_books books t) k)
          ≡ last_word books k x (contains x (topics_of t k)))
      × (IsRouted t → IsRouted (keep_books books t))
unfolding keep_books
keep_books_from [] t = (λ k x. refl, λ v. v)
keep_books_from ((is_sub, key, topic) ∷ books) t =
    let t' = (handle_book_keeping key topic is_sub t).0 in
    let rest = keep_books_from books t' in
    (
      λ k x.
          rest.0 k x ∙ ap (last_word books k x) (handle_book_keeping_lem t key topic is_sub k x).0,
      λ v. rest.1 (handle_book_keeping-IsRouted t key topic is_sub v),
    )

empty_topics : (k x : String) → contains x (topics_of [] k) ≡ false
unfolding contains lookup
empty_topics k x = refl

pub empty-IsRouted : IsRouted []
unfolding lookup
empty-IsRouted = record { no_empty = λ k. ground arith; distinct = λ k. tt }

-- After any sequence of messages on an empty table: a topic is one of a key's exactly if the last
-- message about the two subscribed; and the table is well-formed.
pub keep_books-last_word :
    (books : List Book) (k x : String)
    → (contains x (topics_of (keep_books books []) k) ≡ last_word books k x false)
      × IsRouted (keep_books books [])
keep_books-last_word books k x =
    let all = keep_books_from books [] in
    (all.0 k x ∙ ap (last_word books k x) (empty_topics k x), all.1 empty-IsRouted)
