-- ===== src/Middleware/Starting/Milestones.antt =====
-- MiddleWare/Interface.cpp, `initializeMiddleWare`: when a component comes up, and in which order it
-- ends.
use multi_market_prices.Prelude.{
  ◌≡◌, refl, Bool, true, false, not, ◌&&◌, ◌||◌, List, [], ◌∷◌, string_eq, nat_eq, ◌==◌,
  if◌then◌else◌, arith, is_some, Bool-cases, Option-cases, inl, inr,
}
use multi_market_prices.Constants.Messages.{
  MessageType, message_type_text, HeaderKey, header_key_text,
}
use multi_market_prices.Middleware.{send, produce}
use multi_market_prices.Middleware.Starting.{
  InitParams, StartError, app_id_empty, app_group_empty, description_null, heart_beat_gen_null,
  heartbeat_interval_zero, timer_null, worker_null, msg_callback_null, init_callback_null,
  response_callback_none, request_handler_none, min_brokers_zero, is_error, validation_error,
  validate_init_params, StartEffect, call_init_callback, put, run_individual_loop, call_exit_cb,
  close_producer, start_group_loop, kill_group_loop, report_error, subscribe, Outcomes, live,
  initialize_middleware,
}

abbrev pub all : List Bool → Bool
all [] = true
all (b ∷ bs) = b && all bs

-- Everything that has to be given is.
abbrev pub is_usable : InitParams → Bool
is_usable p = all (
    not (p.app_id == "")
    ∷ not (p.app_group == "")
    ∷ p.has_description_func
    ∷ p.has_heart_beat_gen_func
    ∷ not (p.heartbeat_interval_sec == 0)
    ∷ p.has_timer
    ∷ p.has_kafka_worker
    ∷ p.has_msg_callback
    ∷ p.has_init_callback
    ∷ p.has_response_callback
    ∷ p.has_request_handler_func
    ∷ not (p.min_available_brokers == 0)
    ∷ [])

abbrev pub comes_up : InitParams → Outcomes → Bool
comes_up p o = is_usable p && not (is_some o.clients) && not (is_some o.subscribing)

-- What the application and the other components see of it.
abbrev pub milestones : List StartEffect → List StartEffect
milestones [] = []
milestones (call_init_callback ∷ es) = call_init_callback ∷ milestones es
milestones (put e ∷ es) = put e ∷ milestones es
milestones (run_individual_loop ∷ es) = run_individual_loop ∷ milestones es
milestones (call_exit_cb ∷ es) = call_exit_cb ∷ milestones es
milestones (close_producer ∷ es) = close_producer ∷ milestones es
milestones (_ ∷ es) = milestones es

abbrev pub group_loop : List StartEffect → List StartEffect
group_loop [] = []
group_loop (start_group_loop ∷ es) = start_group_loop ∷ group_loop es
group_loop (kill_group_loop ∷ es) = kill_group_loop ∷ group_loop es
group_loop (_ ∷ es) = group_loop es

-- Whether some error is reported that is one.
abbrev pub complains : List StartEffect → Bool
complains [] = false
complains (report_error e ∷ es) = is_error e || complains es
complains (_ ∷ es) = complains es

abbrev pub announcement : InitParams → MessageType → StartEffect
announcement p t = put (
    send (record {
      topic = p.registrations_topic;
      key = p.app_id;
      payload = p.description;
      headers = (header_key_text HeaderKey.message_type, message_type_text t) ∷ [];
    }))

first_guard :
    (b : Bool) (e rest : StartError) (u : Bool)
    → is_error e ≡ true
    → not (is_error rest) ≡ u
    → not (is_error (if b then e else rest)) ≡ not b && u
first_guard true e rest u x y = rw x refl
first_guard false e rest u x y = y

first_need :
    (b : Bool) (e rest : StartError) (u : Bool)
    → is_error e ≡ true
    → not (is_error rest) ≡ u
    → not (is_error (if not b then e else rest)) ≡ b && u
first_need true e rest u x y = y
first_need false e rest u x y = rw x refl

validation_error_lem : (p : InitParams) → not (is_error (validation_error p)) ≡ is_usable p
unfolding validation_error
validation_error_lem p = first_guard (p.app_id == "") app_id_empty _ _ refl (
    first_guard (p.app_group == "") app_group_empty _ _ refl (
      first_need p.has_description_func description_null _ _ refl (
        first_need p.has_heart_beat_gen_func heart_beat_gen_null _ _ refl (
          first_guard (p.heartbeat_interval_sec == 0) heartbeat_interval_zero _ _ refl (
            first_need p.has_timer timer_null _ _ refl (
              first_need p.has_kafka_worker worker_null _ _ refl (
                first_need p.has_msg_callback msg_callback_null _ _ refl (
                  first_need p.has_init_callback init_callback_null _ _ refl (
                    first_need p.has_response_callback response_callback_none _ _ refl (
                      first_need p.has_request_handler_func request_handler_none _ _ refl (
                        first_guard (p.min_available_brokers == 0) min_brokers_zero _ _ refl
                          refl)))))))))))

abbrev pub expected_milestones : InitParams → List StartEffect
expected_milestones p =
    call_init_callback
    ∷ announcement p MessageType.app_up
    ∷ run_individual_loop
    ∷ announcement p MessageType.app_down
    ∷ (if p.has_exit_cb then call_exit_cb ∷ close_producer ∷ [] else close_producer ∷ [])

has_app_id : (p : InitParams) → is_usable p ≡ true → (p.app_id == "") ≡ false
has_app_id p u = ground (arith, u)

error_lem : (p : InitParams) → is_error (validation_error p) ≡ not (is_usable p)
error_lem p = ground (arith, validation_error_lem p)

-- With a topic for registrations that is not empty. A component comes up exactly if everything that
-- has to be given is, the clients are made and its own topic is subscribed. Then the callback for
-- the start is called, `app_up` is sent, the loop over its own topic runs to its end, `app_down` is
-- sent, the callback for the exit is called if there is one, and only then the producer is closed,
-- each once and in this order; otherwise none of this happens and an error is reported, which is not
-- reported when it comes up. The group's loop is started, once, exactly if everything that has to be
-- given is and the clients are made, and exactly then `kill` is called on it, once and later; whether
-- the loop is over when `kill` returns is not said.
pub initialize_middleware_lem :
    (p : InitParams) (o : Outcomes)
    → (p.registrations_topic == "") ≡ false
    → (milestones (initialize_middleware p o)
        ≡ (if comes_up p o then expected_milestones p else []))
      × (complains (initialize_middleware p o) ≡ not (comes_up p o))
      × (group_loop (initialize_middleware p o) ≡ (
          if is_usable p && not (is_some o.clients)
          then start_group_loop ∷ kill_group_loop ∷ []
          else []))
unfolding initialize_middleware validate_init_params subscribe live produce
initialize_middleware_lem p o t = elim (Bool-cases (is_usable p)) [
  | inr u ↦ rw (error_lem p, u) (refl, refl, refl)
  | inl u ↦ elim (Option-cases o.clients) [
    | inr (c, e) ↦ rw (error_lem p, u, e) (refl, refl, refl)
    | inl e ↦ elim (Option-cases o.subscribing) [
      | inr (c, f) ↦ rw (error_lem p, u, e, has_app_id p u, f) (refl, refl, refl)
      | inl f ↦ elim (Bool-cases p.has_exit_cb) [
        | inl x ↦ rw (error_lem p, u, e, has_app_id p u, t, f, x) (refl, refl, refl)
        | inr x ↦ rw (error_lem p, u, e, has_app_id p u, t, f, x) (refl, refl, refl)
      ]
    ]
  ]
]
