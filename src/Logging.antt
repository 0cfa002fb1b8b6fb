-- ===== src/Logging.antt =====
-- Logging.h: the files that the log goes to, and its levels. NanoLog is outside: what it is told is an
-- effect. The date of the moment, as `strftime` writes it, and the size of the file are arguments. The
-- number of the file is an `int`, and stands for itself below 2 ^ 31.
pub mod Names
pub mod Files
mod Tests
use Prim.Native.String
use multi_market_prices.Prelude.{
  ℕ, ◌+◌, ◌*◌, ◌&&◌, Bool, true, false, not, List, [], ◌∷◌, ◌++◌, String, if◌then◌else◌, leb,
  to_string,
}
use multi_market_prices.Constants.Reading.{LoggingLevel}

-- The levels of NanoLog that the code names.
pub data LogLevel : Type 0 where
  error warning notice debug : LogLevel

pub data LogEffect : Type 0 where
  make_directory : String → LogEffect
  set_log_file : String → LogEffect
  set_log_level : LogLevel → LogEffect
  preallocate : LogEffect
  -- The thread of `rotationLoop`.
  start_rotation : LogEffect
  sync : LogEffect

-- The variables of `Logging::detail`.
pub record Log : Type 0 where
  pub rotation_thread_running : Bool
  pub current_log_path : String
  pub base_log_path : String
  pub current_log_number : ℕ

abbrev pub max_log_size : ℕ
max_log_size = 100 * 1024 * 1024

unfoldable pub generate_log_file_name : String → String → ℕ → String
unfolding to_string
generate_log_file_name date app_id log_number =
    String.◌++◌ app_id (String.◌++◌ "_" (String.◌++◌ date (String.◌++◌ "." (to_string log_number))))

-- The level of NanoLog, in `init` and in `setLoggingLevel`.
abbrev pub nano_log_level : LoggingLevel → LogLevel
nano_log_level LoggingLevel.error = error
nano_log_level LoggingLevel.warning = warning
nano_log_level LoggingLevel.info = notice
nano_log_level LoggingLevel.debug = debug

unfoldable pub init : String → String → LoggingLevel → String → Log × List LogEffect
unfolding generate_log_file_name
init date app_id log_level log_dir =
    let base = String.◌++◌ log_dir (String.◌++◌ "/" app_id) in
    let path = generate_log_file_name date base 0 in
    (
      record {
        rotation_thread_running = true;
        current_log_path = path;
        base_log_path = base;
        current_log_number = 0;
      },
      make_directory log_dir
          ∷ set_log_file path
          ∷ set_log_level (nano_log_level log_level)
          ∷ preallocate
          ∷ start_rotation
          ∷ [],
    )

unfoldable pub set_logging_level : LoggingLevel → List LogEffect
set_logging_level log_level = set_log_level (nano_log_level log_level) ∷ []

unfoldable pub shutdown : Log → Log × List LogEffect
shutdown s = (record s { rotation_thread_running = false }, sync ∷ [])

-- What a pass of the loop sees five seconds after its test: the size of the current file, the date, and
-- whether `shutdown` was called by the next test.
pub record Pass : Type 0 where
  pub size : ℕ
  pub date : String
  pub shut_down : Bool

-- The body of the loop, after the sleep.
unfoldable pub rotate : Pass → Log → Log × List LogEffect
unfolding generate_log_file_name
rotate p s =
    let next_num = s.current_log_number + 1 in
    let path = generate_log_file_name p.date s.base_log_path next_num in
    if leb max_log_size p.size
    then (
      record s { current_log_path = path; current_log_number = next_num },
      set_log_file path ∷ [],
    )
    else (s, [])

unfoldable pub rotation_loop : List Pass → Log → Log × List LogEffect
unfolding rotate
rotation_loop [] s = (s, [])
rotation_loop (p ∷ passes) s =
    let after = rotate p s in
    let seen = record after.0 {
      rotation_thread_running = after.0.rotation_thread_running && not p.shut_down;
    } in
    let rest = rotation_loop passes seen in
    if s.rotation_thread_running then (rest.0, after.1 ++ rest.1) else (s, [])
