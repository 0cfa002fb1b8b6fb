-- ===== src/Middleware/Killing/Ending.antt =====
-- MiddleWare/Interface.cpp, `ConsumptionLoop`: that `kill` waits for the end of the loop, and gets it.
use multi_market_prices.Prelude.{◌≤◌, ℕ, suc, ◌≡◌, refl, Bool, true, false, not, ◌&&◌, arith}
use multi_market_prices.Middleware.Killing.{
  threads, constructed, Looping, unstarted, testing, leaving, closed, over, Killer, asking,
  clearing, waiting, returned, Threads, Step, begin, pass, leave, close, release, ask_idle,
  ask_running, clear, acquire, signal, Steps, done, and_then, started,
}

-- What `release` gave to the semaphore.
abbrev released : Looping → ℕ
released over = 1
released _ = 0

abbrev pub IsOver : Looping → Type 0
IsOver over = Unit
IsOver _ = ⊥

abbrev IsBegun : Looping → Type 0
IsBegun unstarted = ⊥
IsBegun _ = Unit

-- Nobody takes from the semaphore before the caller of `kill` does, and it returns with an empty one.
abbrev HasHandshake : Bool → ℕ → Looping → Killer → Type 0
HasHandshake r n l asking = (r ≡ true) × (n ≡ released l)
HasHandshake r n l clearing = n ≡ released l
HasHandshake r n l waiting = (r ≡ false) × (n ≡ released l)
HasHandshake r n l returned = IsOver l × (n ≡ 0)

record IsSound (t : Threads) : Type 0 where
  begun : IsBegun t.looping
  handshake : HasHandshake t.m_running t.m_killed t.looping t.killer

moves :
    (r : Bool) (n : ℕ) (l m : Looping) (k : Killer)
    → released m ≡ released l
    → (IsOver l → IsOver m)
    → HasHandshake r n l k
    → HasHandshake r n m k
moves r n l m asking e o (a, b) = (a, ground (arith, e, b))
moves r n l m clearing e o a = ground (arith, e, a)
moves r n l m waiting e o (a, b) = (a, ground (arith, e, b))
moves r n l m returned e o (a, b) = (o a, b)

releases :
    (r : Bool) (n : ℕ) (k : Killer) → HasHandshake r n closed k → HasHandshake r (suc n) over k
releases r n asking (a, b) = (a, ground (arith, b))
releases r n clearing a = ground (arith, a)
releases r n waiting (a, b) = (a, ground (arith, b))
releases r n returned (a, b) = absurd a

acquires :
    (r : Bool) (n : ℕ) (l : Looping)
    → HasHandshake r (suc n) l waiting
    → HasHandshake r n l returned
acquires r n over (a, b) = (tt, ground (arith, b))
acquires r n unstarted (a, b) = absurd (ground (arith, b))
acquires r n testing (a, b) = absurd (ground (arith, b))
acquires r n leaving (a, b) = absurd (ground (arith, b))
acquires r n closed (a, b) = absurd (ground (arith, b))

Step-IsSound : (t u : Threads) → Step t u → IsSound t → IsSound u
Step-IsSound _ _ (begin r s n k) i = absurd i.begun
Step-IsSound _ _ (pass n k) i = i
Step-IsSound _ _ (leave r s n k e) i = record {
  begun = tt;
  handshake = moves r n testing leaving k refl (λ o. absurd o) i.handshake;
}
Step-IsSound _ _ (close r s n k) i = record {
  begun = tt;
  handshake = moves r n leaving closed k refl (λ o. absurd o) i.handshake;
}
Step-IsSound _ _ (release r s n k) i = record { begun = tt; handshake = releases r n k i.handshake }
Step-IsSound _ _ (ask_idle s n l) i = absurd (ground (arith, i.handshake))
Step-IsSound _ _ (ask_running s n l) i = record { begun = i.begun; handshake = i.handshake.1 }
Step-IsSound _ _ (clear r s n l) i = record { begun = i.begun; handshake = (refl, i.handshake) }
Step-IsSound _ _ (acquire r s n l) i = record {
  begun = i.begun;
  handshake = acquires r n l i.handshake;
}
Step-IsSound _ _ (signal r s n l k) i = record { begun = i.begun; handshake = i.handshake }

Steps-IsSound : (t u : Threads) → Steps t u → IsSound t → IsSound u
Steps-IsSound _ _ (done t) i = i
Steps-IsSound _ _ (and_then t u v s ss) i = Steps-IsSound u v ss (Step-IsSound t u s i)

abbrev pub HasEnded : Threads → Type 0
HasEnded t = IsOver t.looping × (t.killer ≡ returned)

-- It can end from here.
abbrev pub CanEnd : Threads → Type 0
CanEnd t = (u : Threads) × Steps t u × HasEnded u

after : (t u : Threads) → Step t u → CanEnd u → CanEnd t
after t u s (v, ss, e) = (v, and_then t u v s ss, e)

over_ends : (s : Bool) → CanEnd (threads false 1 s over waiting)
over_ends s = after _ _ (acquire false s 0 over) (_, done _, (tt, refl))

closed_ends : (s : Bool) → CanEnd (threads false 0 s closed waiting)
closed_ends s = after _ _ (release false s 0 waiting) (over_ends s)

leaving_ends : (s : Bool) → CanEnd (threads false 0 s leaving waiting)
leaving_ends s = after _ _ (close false s 0 waiting) (closed_ends s)

waiting_ends :
    (s : Bool) (n : ℕ) (l : Looping)
    → IsBegun l
    → n ≡ released l
    → CanEnd (threads false n s l waiting)
waiting_ends s n unstarted b e = absurd b
waiting_ends s n over b e = rw e (over_ends s)
waiting_ends s n closed b e = rw e (closed_ends s)
waiting_ends s n leaving b e = rw e (leaving_ends s)
waiting_ends s n testing b e = rw e (after _ _ (leave false s 0 waiting refl) (leaving_ends s))

clearing_ends :
    (r s : Bool) (n : ℕ) (l : Looping)
    → IsBegun l
    → n ≡ released l
    → CanEnd (threads r n s l clearing)
clearing_ends r s n l b e = after _ _ (clear r s n l) (waiting_ends s n l b e)

sound_ends :
    (r s : Bool) (n : ℕ) (l : Looping) (k : Killer)
    → IsSound (threads r n s l k)
    → CanEnd (threads r n s l k)
sound_ends true s n l asking i =
    after _ _ (ask_running s n l) (clearing_ends true s n l i.begun i.handshake.1)
sound_ends false s n l asking i = absurd (ground (arith, i.handshake))
sound_ends r s n l clearing i = clearing_ends r s n l i.begun i.handshake
sound_ends r s n l waiting i = rw i.handshake.0 (waiting_ends s n l i.begun i.handshake.1)
sound_ends r s n l returned i = (_, done _, (i.handshake.0, refl))

unfoldable pub has_returned : Killer → Bool
has_returned returned = true
has_returned _ = false

unfoldable pub is_over : Looping → Bool
is_over over = true
is_over _ = false

over-is_over : (l : Looping) → IsOver l → is_over l ≡ true
unfolding is_over
over-is_over over o = refl
over-is_over unstarted o = absurd o
over-is_over testing o = absurd o
over-is_over leaving o = absurd o
over-is_over closed o = absurd o

returns_last :
    (r : Bool) (n : ℕ) (l : Looping) (k : Killer)
    → HasHandshake r n l k
    → has_returned k && not (is_over l) ≡ false
unfolding has_returned
returns_last r n l returned h = rw (over-is_over l h.0) refl
returns_last r n l asking h = refl
returns_last r n l clearing h = refl
returns_last r n l waiting h = refl

-- Once the loop has begun before `kill` is called, in every state that the two threads reach, with
-- signals at any time: it is never so that `kill` has returned and the loop, with the closing of its
-- consumer, is not over; and the threads can still go on to where the loop is over and `kill` has
-- returned, so neither waits forever for the other.
pub kill-IsOver :
    (t : Threads)
    → Steps started t
    → (has_returned t.killer && not (is_over t.looping) ≡ false) × CanEnd t
kill-IsOver t ss =
    let i = Steps-IsSound started t ss (record { begun = tt; handshake = (refl, refl) }) in
    (
      returns_last t.m_running t.m_killed t.looping t.killer i.handshake,
      sound_ends t.m_running t.shutdown_requested t.m_killed t.looping t.killer i,
    )

-- The semaphore has been given at most what the end of the loop gives.
IsBinary : Threads → Type 0
IsBinary t = t.m_killed ≤ released t.looping

Step-IsBinary : (t u : Threads) → Step t u → IsBinary t → IsBinary u
unfolding IsBinary
Step-IsBinary _ _ (begin r s n k) i = i
Step-IsBinary _ _ (pass n k) i = i
Step-IsBinary _ _ (leave r s n k e) i = i
Step-IsBinary _ _ (close r s n k) i = i
Step-IsBinary _ _ (release r s n k) i = ground (arith, i)
Step-IsBinary _ _ (ask_idle s n l) i = i
Step-IsBinary _ _ (ask_running s n l) i = i
Step-IsBinary _ _ (clear r s n l) i = i
Step-IsBinary _ _ (acquire r s n l) i = ground (arith, i)
Step-IsBinary _ _ (signal r s n l k) i = i

Steps-IsBinary : (t u : Threads) → Steps t u → IsBinary t → IsBinary u
Steps-IsBinary _ _ (done t) i = i
Steps-IsBinary _ _ (and_then t u v s ss) i = Steps-IsBinary u v ss (Step-IsBinary t u s i)

released_le : (l : Looping) → released l ≤ 1
released_le over = ground arith
released_le unstarted = ground arith
released_le testing = ground arith
released_le leaving = ground arith
released_le closed = ground arith

-- From the construction on, in whatever order the two threads and signals take their steps, also when
-- `kill` is called before the loop begins: the binary semaphore never holds more than one.
pub m_killed_le : (t : Threads) → Steps constructed t → t.m_killed ≤ 1
unfolding IsBinary
m_killed_le t ss =
    omega (arith, Steps-IsBinary constructed t ss (ground arith), released_le t.looping)
