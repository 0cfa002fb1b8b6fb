-- ===== src/Middleware/Killing.antt =====
-- MiddleWare/Interface.cpp, `ConsumptionLoop`: the thread that runs `start` and a thread that calls
-- `kill`, which share the flag `m_running` and the semaphore `m_killed`, step by step in any order.
-- What the passes do is in Middleware.Loop.
pub mod Ending
use multi_market_prices.Prelude.{
  ℕ, suc, ◌+◌, ◌-◌, ◌≡◌, refl, Bool, true, false, not, ◌&&◌, ◌⊎◌, inl, inr, List, [], ◌∷◌, arith,
}

-- Where the thread of the loop is: before `m_running = true`, at the test of the loop, before
-- `m_consumer.close()`, before `m_killed.release()`, at the end.
pub data Looping : Type 0 where
  unstarted testing leaving closed over : Looping

-- Where the caller of `kill` is: before the test of `m_running`, before `m_running = false`, before
-- `m_killed.acquire()`, returned.
pub data Killer : Type 0 where
  asking clearing waiting returned : Killer

pub record Threads : Type 0 where
  pub m_running : Bool
  pub m_killed : ℕ
  pub shutdown_requested : Bool
  pub looping : Looping
  pub killer : Killer

abbrev pub threads : Bool → ℕ → Bool → Looping → Killer → Threads
threads r n s l k = record {
  m_running = r;
  m_killed = n;
  shutdown_requested = s;
  looping = l;
  killer = k;
}

-- One step of either thread, or a signal.
pub data Step : Threads → Threads → Type 0 where
  begin :
      (r s : Bool) (n : ℕ) (k : Killer)
      → Step (threads r n s unstarted k) (threads true n s testing k)
  pass :
      (n : ℕ) (k : Killer) → Step (threads true n false testing k) (threads true n false testing k)
  leave :
      (r s : Bool) (n : ℕ) (k : Killer)
      → (r && not s) ≡ false
      → Step (threads r n s testing k) (threads r n s leaving k)
  close :
      (r s : Bool) (n : ℕ) (k : Killer) → Step (threads r n s leaving k) (threads r n s closed k)
  release :
      (r s : Bool) (n : ℕ) (k : Killer) → Step (threads r n s closed k) (threads r (suc n) s over k)
  ask_idle :
      (s : Bool) (n : ℕ) (l : Looping)
      → Step (threads false n s l asking) (threads false n s l returned)
  ask_running :
      (s : Bool) (n : ℕ) (l : Looping)
      → Step (threads true n s l asking) (threads true n s l clearing)
  clear :
      (r s : Bool) (n : ℕ) (l : Looping)
      → Step (threads r n s l clearing) (threads false n s l waiting)
  acquire :
      (r s : Bool) (n : ℕ) (l : Looping)
      → Step (threads r (suc n) s l waiting) (threads r n s l returned)
  signal :
      (r s : Bool) (n : ℕ) (l : Looping) (k : Killer)
      → Step (threads r n s l k) (threads r n true l k)

pub data Steps : Threads → Threads → Type 0 where
  done : (t : Threads) → Steps t t
  and_then : (t u v : Threads) → Step t u → Steps u v → Steps t v

-- Constructed, and not yet started.
abbrev pub constructed : Threads
constructed = threads false 0 false unstarted asking

-- The loop runs, and nobody called `kill` yet.
abbrev pub started : Threads
started = threads true 0 false testing asking
