-- ===== src/Config/Updating.antt =====
-- ConfigLib/ConfigLib.cpp: the start of the configuration, the watch on its file and what an update
-- does. The file and inotify are outside: what `load_json` returns, what each `read` brings and the
-- flag `stopFlag` are arguments. `none` is an exception, or a dereference of an empty optional.
use multi_market_prices.Prelude.{
  ℕ, ◌+◌, Bool, true, false, ◌&&◌, Option, none, some, List, [], ◌∷◌, ◌++◌, String, string_eq,
  string_dec, ◌==◌, if◌then◌else◌,
}
use multi_market_prices.Constants.Reading.{LoggingLevel, str_to_log_level}
use multi_market_prices.Config.{Values, Object, create_config, string_at, and_then}

pub data ConfigEffect (V : Type 0) : Type 0 where
  -- `Logging::setLoggingLevel`
  set_logging_level : LoggingLevel → ConfigEffect V
  -- The application's listener.
  call_listener : Object V → ConfigEffect V
  start_watching : ConfigEffect V

module _ {V : Type 0} (values : Values V) where
  -- A level that is not known is logged.
  unfoldable pub update_log_level : Object V → Option (List (ConfigEffect V))
  unfolding str_to_log_level
  update_log_level cfg = and_then (string_at values "logLevel" cfg) (λ text.
      elim (str_to_log_level text) [
        | none ↦ some []
        | some level ↦ some (set_logging_level level ∷ [])
      ])

  unfoldable pub on_config_update :
      Option (Object V) → String → Bool → (Object V → Bool) → Option (List (ConfigEffect V))
  unfolding update_log_level create_config
  on_config_update loaded app_id has_listener config_validator =
      and_then (create_config values loaded app_id) (λ created. elim created [
        | none ↦ some []
        | some cfg ↦
            if config_validator cfg
            then and_then (update_log_level cfg)
                (λ es. some (es ++ (if has_listener then call_listener cfg ∷ [] else [])))
            else some []
      ])

  -- `init`: on the branch of a failure the code dereferences the empty optional.
  unfoldable pub init : Option (Object V) → String → Option (Object V × List (ConfigEffect V))
  unfolding create_config
  init loaded app_id =
      and_then (create_config values loaded app_id)
        (λ created. elim created [ none ↦ none | some cfg ↦ some (cfg, start_watching ∷ []) ])

-- An event of inotify: the name, if it has one, and whether its mask is one of the three that count.
pub record FileEvent : Type 0 where
  pub name : Option String
  pub counts : Bool

-- One turn of the loop of `watch_file`: the flag at its test, and what `read` brings (`none`: an
-- error or nothing).
pub record Turn : Type 0 where
  pub stopped : Bool
  pub events : Option (List FileEvent)

-- How often the events of one `read` call the listener.
unfoldable pub calls : String → List FileEvent → ℕ
unfolding string_dec
calls filename [] = 0
calls filename (e ∷ es) =
    let rest = calls filename es in
    let named : Bool = elim e.name [ none ↦ false | some n ↦ n == filename ] in
    if named && e.counts then 1 + rest else rest

-- The number of calls of the listener, and whether the watch is over.
unfoldable pub watch_file : String → List Turn → ℕ × Bool
unfolding calls
watch_file filename [] = (0, false)
watch_file filename (t ∷ ts) =
    let rest = watch_file filename ts in
    if t.stopped
    then (0, true)
    else elim t.events [ none ↦ (0, true) | some es ↦ (calls filename es + rest.0, rest.1) ]
