-- ===== src/Config/Loading.antt =====
-- ConfigLib/ConfigLib.cpp: how the file of the configuration is read, and the descriptors of the
-- watch on it. The text of the file (`none`: it does not open), the parser (`none`: it throws) and
-- what inotify returns are arguments.
use multi_market_prices.Prelude.{
  ℕ, ◌+◌, Bool, true, false, not, Option, none, some, List, [], ◌∷◌, ◌++◌, String, ◌≡◌, refl,
  if◌then◌else◌, ◌||◌, map, is_some, arith,
}
use multi_market_prices.Config.{Values, Object, create_config, and_then}
use multi_market_prices.Config.Updating.{FileEvent, Turn, calls, watch_file, on_config_update}

-- Whatever throws is caught, and gives the empty optional.
unfoldable load_json :
    {V : Type 0} → Values V → (String → Option V) → Option String → Option (Object V)
load_json values parse contents = and_then contents (λ s. and_then (parse s) values.as_object)

-- What `watch_file` asks of the system besides the reads.
data WatchCall : Type 0 where
  inotify_add_watch inotify_rm_watch close : WatchCall

-- `watch_file` from its start: whether `inotify_init` and `inotify_add_watch` succeed, the file's name
-- and the turns of the loop. The result is the number of calls of the listener, and the calls on the
-- descriptor of a successful `inotify_init`; those after the loop are made only when the loop ends.
unfoldable watch_from_start : Bool → Bool → String → List Turn → ℕ × List WatchCall
unfolding watch_file
watch_from_start has_fd has_wd filename turns =
    if not has_fd
    then (0, [])
    else if not has_wd
    then (0, inotify_add_watch ∷ close ∷ [])
    else let looped = watch_file filename turns in
      (looped.0, inotify_add_watch ∷ (if looped.1 then inotify_rm_watch ∷ close ∷ [] else []))

-- A turn that the loop goes on after: the flag is not set, and the events came.
abbrev read_turn : List FileEvent → Turn
read_turn es = record { stopped = false; events = some es }

all_events : List (List FileEvent) → List FileEvent
all_events [] = []
all_events (es ∷ ess) = es ++ all_events ess

calls_append :
    (filename : String) (es fs : List FileEvent)
    → calls filename (es ++ fs) ≡ calls filename es + calls filename fs
unfolding calls
calls_append filename [] fs = ground arith
calls_append filename (e ∷ es) fs = ground (arith, calls_append filename es fs)

watch_file_ends :
    (filename : String) (stopped : Bool) (events : Option (List FileEvent)) (later : List Turn)
    → (stopped || not (is_some events)) ≡ true
    → watch_file filename (record { stopped = stopped; events = events } ∷ later) ≡ (0, true)
unfolding watch_file
watch_file_ends filename true events later h = refl
watch_file_ends filename false none later h = refl
watch_file_ends filename false (some es) later h = ground (arith, h)

watch_file-reads :
    (filename : String) (ess : List (List FileEvent)) (t : Turn) (later : List Turn)
    → (t.stopped || not (is_some t.events)) ≡ true
    → watch_file filename (map read_turn ess ++ t ∷ later) ≡ (calls filename (all_events ess), true)
unfolding watch_file calls all_events
watch_file-reads filename [] t later h = watch_file_ends filename t.stopped t.events later h
watch_file-reads filename (es ∷ ess) t later h =
    rw (watch_file-reads filename ess t later h, calls_append filename es (all_events ess)) refl

-- A watch that begins, reads events for a while, and then finds its flag set or a read that brings
-- nothing: the listener is called once for each event on the file's name that counts, whatever way the
-- reads cut the events up, nothing later is read, and the watch and its descriptor are released.
watch_from_start_lem :
    (filename : String) (ess : List (List FileEvent)) (t : Turn) (later : List Turn)
    → (t.stopped || not (is_some t.events)) ≡ true
    → watch_from_start true true filename (map read_turn ess ++ t ∷ later)
      ≡ (calls filename (all_events ess), inotify_add_watch ∷ inotify_rm_watch ∷ close ∷ [])
unfolding watch_from_start
watch_from_start_lem filename ess t later h = rw (watch_file-reads filename ess t later h) refl

module _ {V : Type 0} (values : Values V) (parse : String → Option V) where
  -- A file that does not open, does not parse or does not hold an object changes nothing when it is
  -- updated.
  unreadable_update :
      (contents : Option String) (app_id : String) (has_listener : Bool)
      (config_validator : Object V → Bool)
      → load_json values parse contents ≡ none
      → on_config_update values
          (load_json values parse contents)
          app_id
          has_listener
          config_validator
        ≡ some []
  unfolding on_config_update create_config
  unreadable_update contents app_id has_listener config_validator h = rw h refl
