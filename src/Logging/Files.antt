-- ===== src/Logging/Files.antt =====
-- Logging.h: no file is opened twice.
use multi_market_prices.Prelude.{
  ℕ, ◌+◌, ◌<◌, ◌≤◌, ◌^◌, ◌≡◌, refl, ap, true, false, not, ◌&&◌, List, [], ◌∷◌, ◌++◌, String,
  string_eq, nat_eq, if◌then◌else◌, leb, lacks, contains, IsDistinct, All, length, arith, inl, inr,
  Bool-cases,
}
use multi_market_prices.Constants.Reading.{LoggingLevel}
use multi_market_prices.Logging.Names.{other_name}
use multi_market_prices.Logging.{
  LogEffect, set_log_file, Log, Pass, generate_log_file_name, rotate, rotation_loop, init,
  max_log_size,
}

-- The files that the effects open.
unfoldable pub opened : List LogEffect → List String
opened [] = []
opened (set_log_file path ∷ es) = path ∷ opened es
opened (_ ∷ es) = opened es

abbrev HasPlainDate : Pass → Type 0
HasPlainDate p = lacks b'.' p.date ≡ true

-- What is opened from here on: no number so far, nothing twice, and one file for each new number.
record IsFresh (base : String) (n m : ℕ) (files : List String) : Type 0 where
  unused :
      (d : String) (k : ℕ)
      → lacks b'.' d ≡ true
      → k ≤ n
      → contains (generate_log_file_name d base k) files ≡ false
  distinct : IsDistinct files
  counted : m ≡ n + length files

nothing : (base : String) (n : ℕ) → IsFresh base n n []
unfolding contains
nothing base n = record { unused = λ d k h l. refl; distinct = tt; counted = omega arith }

one_more :
    (base : String) (n m : ℕ) (d : String) (files : List String)
    → lacks b'.' d ≡ true
    → n + 1 < 2 ^ 31
    → IsFresh base (n + 1) m files
    → IsFresh base n m (generate_log_file_name d base (n + 1) ∷ files)
unfolding contains
one_more base n m d files h b v = record {
  unused = λ e k g l. ground (
    arith,
    other_name d e base k (n + 1) h g (omega (arith, l)) b,
    v.unused e k g (omega (arith, l)),
  );
  distinct = (v.unused d (n + 1) h (omega arith), v.distinct);
  counted = omega (arith, v.counted);
}

abbrev turned : Pass → Log → Log
turned p s =
    let after = rotate p s in
    record after.0 { rotation_thread_running = after.0.rotation_thread_running && not p.shut_down }

module _ (p : Pass) (passes : List Pass) (s : Log) where
  abbrev stays : Log
  stays = record s { rotation_thread_running = s.rotation_thread_running && not p.shut_down }

  abbrev next_path : String
  next_path = generate_log_file_name p.date s.base_log_path (s.current_log_number + 1)

  abbrev moves : Log
  moves = record s {
    rotation_thread_running = s.rotation_thread_running && not p.shut_down;
    current_log_path = next_path;
    current_log_number = s.current_log_number + 1;
  }

  loop_stops : s.rotation_thread_running ≡ false → rotation_loop (p ∷ passes) s ≡ (s, [])
  unfolding rotation_loop
  loop_stops e =
      ap
        (λ b.
          if b
          then (
            (rotation_loop passes (turned p s)).0,
            (rotate p s).1 ++ (rotation_loop passes (turned p s)).1,
          )
          else (s, []))
        e

  loop_runs :
      s.rotation_thread_running ≡ true
      → rotation_loop (p ∷ passes) s ≡ (
        (rotation_loop passes (turned p s)).0,
        (rotate p s).1 ++ (rotation_loop passes (turned p s)).1,
      )
  unfolding rotation_loop
  loop_runs e =
      ap
        (λ b.
          if b
          then (
            (rotation_loop passes (turned p s)).0,
            (rotate p s).1 ++ (rotation_loop passes (turned p s)).1,
          )
          else (s, []))
        e

  rotate_stays : leb max_log_size p.size ≡ false → rotate p s ≡ (s, [])
  unfolding rotate
  rotate_stays f = rw f refl

  rotate_moves :
      leb max_log_size p.size ≡ true
      → rotate p s ≡ (
        record s { current_log_path = next_path; current_log_number = s.current_log_number + 1 },
        set_log_file next_path ∷ [],
      )
  unfolding rotate
  rotate_moves f = rw f refl

rotation_loop-IsFresh :
    (passes : List Pass) (s : Log)
    → All HasPlainDate passes
    → s.current_log_number + length passes < 2 ^ 31
    → IsFresh s.base_log_path s.current_log_number
        (rotation_loop passes s).0.current_log_number
        (opened (rotation_loop passes s).1)
unfolding opened
rotation_loop-IsFresh [] s v b =
    unfold rotation_loop in nothing s.base_log_path s.current_log_number
rotation_loop-IsFresh (p ∷ passes) s (h, v) b = elim (Bool-cases s.rotation_thread_running) [
  | inr e ↦ rw (loop_stops p passes s e) (nothing s.base_log_path s.current_log_number)
  | inl e ↦ rw (loop_runs p passes s e) (elim (Bool-cases (leb max_log_size p.size)) [
    | inr f ↦
        rw (rotate_stays p passes s f)
          (rotation_loop-IsFresh passes (stays p passes s) v (omega (arith, b)))
    | inl f ↦ rw (rotate_moves p passes s f) (
        one_more s.base_log_path s.current_log_number
          (rotation_loop passes (moves p passes s)).0.current_log_number p.date
          (opened (rotation_loop passes (moves p passes s)).1) h (omega (arith, b))
          (rotation_loop-IsFresh passes (moves p passes s) v (omega (arith, b))))
  ])
]

-- From `init` on, for dates that are written without a dot and fewer than 2 ^ 31 passes of the loop,
-- whatever sizes they see and whenever the log is shut down: no name is given to NanoLog twice, so
-- no file of this run is opened again, and the number of the current file is the number of files
-- that were opened less one.
pub files_lem :
    (date app_id : String) (level : LoggingLevel) (log_dir : String) (passes : List Pass)
    → lacks b'.' date ≡ true
    → All HasPlainDate passes
    → length passes + 1 < 2 ^ 31
    → let started = init date app_id level log_dir in
      let looped = rotation_loop passes started.0 in
      let files = opened (started.1 ++ looped.1) in
      IsDistinct files × (looped.0.current_log_number + 1 ≡ length files)
unfolding init opened
files_lem date app_id level log_dir passes h v b =
    let s = (init date app_id level log_dir).0 in
    let fresh = rotation_loop-IsFresh passes s v (omega (arith, b)) in
    ((fresh.unused date 0 h (omega arith), fresh.distinct), omega (arith, fresh.counted))
