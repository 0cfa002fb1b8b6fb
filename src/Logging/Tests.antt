-- ===== src/Logging/Tests.antt =====
-- Logging.h: tests of the rotation, and its theorem at concrete inputs.
use multi_market_prices.Prelude.{
  ◌+◌, ◌≡◌, refl, true, false, List, [], ◌∷◌, ◌++◌, string_eq, length, lacks, IsDistinct, to_string,
  arith,
}
use multi_market_prices.Constants.Reading.{LoggingLevel}
use multi_market_prices.Logging.{Pass, generate_log_file_name, init, rotate, rotation_loop}
use multi_market_prices.Logging.Files.{opened, files_lem}

abbrev passes : List Pass
passes =
    record { size = 104857600; date = "20250101"; shut_down = false }
    ∷ record { size = 104857599; date = "20250102"; shut_down = false }
    ∷ record { size = 104857601; date = "20250102"; shut_down = true }
    ∷ record { size = 104857601; date = "20250103"; shut_down = false }
    ∷ []

files :
    opened (
      (init "20250101" "gw" LoggingLevel.info "./logs").1
      ++ (rotation_loop passes (init "20250101" "gw" LoggingLevel.info "./logs").0).1)
    ≡ "./logs/gw_20250101.0" ∷ "./logs/gw_20250101.1" ∷ "./logs/gw_20250102.2" ∷ []
unfolding opened init rotation_loop rotate generate_log_file_name to_string
files = refl

files_lem_example :
    let started = init "20250101" "gw" LoggingLevel.info "./logs" in
    let looped = rotation_loop passes started.0 in
    let files = opened (started.1 ++ looped.1) in
    IsDistinct files × (looped.0.current_log_number + 1 ≡ length files)
unfolding lacks
files_lem_example =
    files_lem "20250101" "gw" LoggingLevel.info "./logs" passes refl
      (refl, (refl, (refl, (refl, tt)))) (ground arith)
