-- ===== src/Programs/Dumper.antt =====
-- DataTumper/DataDumper.cpp: pings whatever application a user names, and logs what comes.
use mathlib.Core.List.{append_assoc}
use multi_market_prices.Prelude.{
  ℕ, ◌<◌, ◌^◌, ◌%◌, ◌≡◌, refl, ap, sym, ◌∙◌, true, false, Option, none, some, List, [], ◌∷◌, ◌++◌,
  String, string_eq, string_dec, nat_eq, ◌==◌, if◌then◌else◌, lookup, contains, eq_of_==, All, inl,
  inr, Bool-cases,
}
use multi_market_prices.Constants.Market.{AppGroup, app_group_text}
use multi_market_prices.Constants.Messages.{ReqType}
use multi_market_prices.Constants.Settings.{ConfigTag, config_tag_text}
use multi_market_prices.Middleware.{MiddlewareEffect, pong, send, produce, receive}
use multi_market_prices.Middleware.Requests.{Application, PendingRequestBook, request, on_message}
use multi_market_prices.Middleware.RoundTrip.{topics, receive_all, ping_round_trip}
use multi_market_prices.Programs.{
  Configuration, Start, usage, failed, launched, and_then, heart_beat_msg, desc_msg, broker_props,
}

-- `main`, as in SDPMock.cpp.
unfoldable pub main : Option String → (String → Option Configuration) → Start
main none init = usage
main (some app_id) init = elim (init app_id) [
  | none ↦ failed
  | some cfg ↦ and_then (cfg.string_at (config_tag_text ConfigTag.brokers)) (λ brokers.
      and_then (cfg.int_at (config_tag_text ConfigTag.num_min_brokers)) (λ min_brokers.
        and_then (cfg.string_at (config_tag_text ConfigTag.heartbeats_topic)) (λ beats.
          and_then (cfg.string_at (config_tag_text ConfigTag.registrations_topic)) (λ registrations.
            launched (record {
              app_id = app_id;
              app_group = app_group_text AppGroup.data_dumper;
              description = desc_msg;
              heart_beat = heart_beat_msg;
              heartbeat_interval_sec = 5;
              producer_props = broker_props brokers;
              consumer_props = broker_props brokers;
              has_pong_callback = true;
              min_available_brokers = min_brokers % 2 ^ 16;
              heartbeats_topic = beats;
              registrations_topic = registrations;
              group_topic = none;
            })))))
]

-- `mainLoop`, over the lines that a user types, each with the number that the generator draws for it.
unfoldable pub main_loop : Application → List (ℕ × String) → List MiddlewareEffect
main_loop app [] = []
main_loop app ((req_id, target_app) ∷ typed) =
    (request app req_id (some ReqType.ping) "" target_app).1 ++ main_loop app typed

-- The callback for pongs: the numbers that it prints.
unfoldable pub printed : List MiddlewareEffect → List ℕ
printed [] = []
printed (pong req_id ∷ es) = req_id ∷ printed es
printed (_ ∷ es) = printed es

-- The numbers of the lines that name this application.
abbrev pub naming : String → List (ℕ × String) → List ℕ
naming app_id [] = []
naming app_id ((req_id, target_app) ∷ typed) =
    if app_id == target_app then req_id ∷ naming app_id typed else naming app_id typed

printed-append : (xs ys : List MiddlewareEffect) → printed (xs ++ ys) ≡ printed xs ++ printed ys
unfolding printed
printed-append [] ys = refl
printed-append (send r ∷ xs) ys = printed-append xs ys
printed-append (MiddlewareEffect.report f ∷ xs) ys = printed-append xs ys
printed-append (MiddlewareEffect.respond_to n p b ∷ xs) ys = printed-append xs ys
printed-append (pong n ∷ xs) ys = ap (λ l. n ∷ l) (printed-append xs ys)
printed-append (MiddlewareEffect.handle n p ∷ xs) ys = printed-append xs ys
printed-append (MiddlewareEffect.deliver m ∷ xs) ys = printed-append xs ys
printed-append (MiddlewareEffect.request_shutdown ∷ xs) ys = printed-append xs ys

module _ (app : Application) where
  receive_all-append :
      (xs ys : List MiddlewareEffect) (book : PendingRequestBook)
      → let first = receive_all none app xs book in
        let rest = receive_all none app ys first.0 in
        receive_all none app (xs ++ ys) book ≡ (rest.0, first.1 ++ rest.1)
  unfolding receive_all
  receive_all-append [] ys book = refl
  receive_all-append (send r ∷ xs) ys book =
      let first : PendingRequestBook × List MiddlewareEffect =
        if contains r.topic (topics app none)
        then on_message app (receive 0 0 r) book
        else (book, []) in
      let rest = receive_all none app xs first.0 in
      ap (λ p. (p.0, first.1 ++ p.1)) (receive_all-append xs ys first.0)
      ∙ ap (λ l. ((receive_all none app ys rest.0).0, l))
          (sym (append_assoc first.1 rest.1 (receive_all none app ys rest.0).1))
  receive_all-append (MiddlewareEffect.report f ∷ xs) ys book = receive_all-append xs ys book
  receive_all-append (MiddlewareEffect.respond_to n p b ∷ xs) ys book =
      receive_all-append xs ys book
  receive_all-append (pong n ∷ xs) ys book = receive_all-append xs ys book
  receive_all-append (MiddlewareEffect.handle n p ∷ xs) ys book = receive_all-append xs ys book
  receive_all-append (MiddlewareEffect.deliver m ∷ xs) ys book = receive_all-append xs ys book
  receive_all-append (MiddlewareEffect.request_shutdown ∷ xs) ys book =
      receive_all-append xs ys book

-- A line that does not name the application sends it nothing.
other_request :
    (app answerer : Application) (req_id : ℕ) (target_app : String) (book : PendingRequestBook)
    → app.has_pong_callback ≡ true
    → (answerer.app_id == target_app) ≡ false
    → receive_all none answerer (request app req_id (some ReqType.ping) "" target_app).1 book
      ≡ (book, [])
unfolding receive_all request produce string_dec contains
other_request app answerer req_id target_app book h e = elim (Bool-cases (target_app == "")) [
  | inl b ↦ rw (h, b) refl
  | inr b ↦ elim (Bool-cases (app.app_id == "")) [
    | inl a ↦ rw (h, b, a) refl
    | inr a ↦ rw (h, b, a, e) refl
  ]
]

-- What the line of a user must be: a number of 64 bits that is not pending at the application, if the
-- line names it.
abbrev pub IsFresh : String → PendingRequestBook → ℕ × String → Type 0
IsFresh app_id book line =
    (app_id == line.1) ≡ true → (line.0 < 2 ^ 64) × (lookup line.0 book ≡ none)

module _ (asker answerer : Application) (book own_book : PendingRequestBook) where
  -- Of what is sent, the pings on the topic of the other application reach it, and the pongs on the
  -- topic of the asking one come back.
  abbrev pub IsAnswered : List MiddlewareEffect → List ℕ → Type 0
  IsAnswered sent ids =
      let pinged = receive_all none answerer sent book in
      let back = receive_all none asker pinged.1 own_book in
      (pinged.0 ≡ book) × (back.0 ≡ own_book) × (printed back.1 ≡ ids)

  IsAnswered-append :
      (xs ys : List MiddlewareEffect) (is js : List ℕ)
      → IsAnswered xs is
      → IsAnswered ys js
      → IsAnswered (xs ++ ys) (is ++ js)
  IsAnswered-append xs ys is js (a, b, c) (d, e, f) = rw (receive_all-append answerer xs ys book) (
      rw a (
        let first = (receive_all none answerer xs book).1 in
        let rest = (receive_all none answerer ys book).1 in
        rw (receive_all-append asker first rest own_book) (
          rw b (
            d,
            e,
            printed-append (receive_all none asker first own_book).1
                  (receive_all none asker rest own_book).1
                ∙ rw (c, f) refl,
          ))))

  IsAnswered-empty :
      (sent : List MiddlewareEffect)
      → receive_all none answerer sent book ≡ (book, [])
      → IsAnswered sent []
  unfolding receive_all printed
  IsAnswered-empty sent e = rw e (refl, refl, refl)

  -- For an asking application with a name and a callback for pongs that does not throw, another
  -- application with a name, lines that each have a number of 64 bits not pending there if they name
  -- it, and each record received once, by the application on whose own topic it is sent: of the
  -- lines that the user types, exactly those that name the other application are answered by it,
  -- each with one pong that comes back to the asking application with the line's number, in the
  -- order of the lines; and both applications' books are as before.
  pub pings_lem :
      (typed : List (ℕ × String))
      → (asker.app_id == "") ≡ false
      → (answerer.app_id == "") ≡ false
      → asker.has_pong_callback ≡ true
      → ((n : ℕ) → asker.pong_throws n ≡ false)
      → All (IsFresh answerer.app_id book) typed
      → IsAnswered (main_loop asker typed) (naming answerer.app_id typed)
  unfolding main_loop printed receive_all contains
  pings_lem [] a t h q v = (refl, refl, refl)
  pings_lem ((req_id, target_app) ∷ typed) a t h q (fresh, v) =
      let rest = pings_lem typed a t h q v in
      let ping = (request asker req_id (some ReqType.ping) "" target_app).1 in
      elim (Bool-cases (answerer.app_id == target_app)) [
        | inr e ↦ rw e (
            IsAnswered-append ping (main_loop asker typed) [] (naming answerer.app_id typed)
              (IsAnswered-empty ping (other_request asker answerer req_id target_app book h e))
              rest)
        | inl e ↦
            let (b, n) = fresh e in
            let same = eq_of_== answerer.app_id target_app e in
            let (kept, back) =
              ping_round_trip asker answerer req_id "" target_app book own_book b a
                (rw (sym same) t) (rw e refl) n h (q req_id) in
            rw e (
              IsAnswered-append ping (main_loop asker typed) (req_id ∷ [])
                (naming answerer.app_id typed)
                (kept, ap (λ r. r.0) back, ap (λ r. printed r.1) back) rest)
      ]
