-- ===== src/Middleware/Loop.antt =====
-- MiddleWare/Interface.cpp, `ConsumptionLoop::start`: the records that are polled, pass by pass.
-- What the flags `m_running` and `g_shutdownRequested` are at each test of the loop, and what each
-- poll gives, are arguments.
use multi_market_prices.Prelude.{
  ℕ, ◌+◌, ◌≡◌, refl, sym, ap, Bool, true, false, not, ◌&&◌, List, [], ◌∷◌, ◌++◌, if◌then◌else◌,
}
use mathlib.Core.List.{append_assoc}
use multi_market_prices.Middleware.{Record, Message, receive}

-- A record with an error, by its code, or with a partition and offset.
pub data Polled : Type 0 where
  failed : ℕ → Polled
  fetched : ℕ → ℕ → Record → Polled

pub record Pass : Type 0 where
  pub running : Bool
  pub shutdown_requested : Bool
  pub records : List Polled

pub data LoopEffect : Type 0 where
  -- `m_errCb`
  report_code : ℕ → LoopEffect
  -- `m_worker.push` of a call of the message's callback
  push : Message → LoopEffect
  commit_async close release : LoopEffect

-- The body of the loop: the records of one poll, then the commit.
unfoldable pub consume_records : List Polled → List LoopEffect
unfolding receive
consume_records [] = commit_async ∷ []
consume_records (failed code ∷ rs) = report_code code ∷ consume_records rs
consume_records (fetched partition offset r ∷ rs) =
    push (receive partition offset r) ∷ consume_records rs

-- `start`, for as many passes as are given.
unfoldable pub start : List Pass → List LoopEffect
unfolding consume_records
start [] = []
start (p ∷ ps) =
    let rest = start ps in
    if p.running && not p.shutdown_requested
    then consume_records p.records ++ rest
    else close ∷ release ∷ []

abbrev pub pushed : List LoopEffect → List Message
pushed [] = []
pushed (push m ∷ es) = m ∷ pushed es
pushed (_ ∷ es) = pushed es

abbrev pub codes : List LoopEffect → List ℕ
codes [] = []
codes (report_code c ∷ es) = c ∷ codes es
codes (_ ∷ es) = codes es

-- The messages of the records without an error, and the errors.
abbrev pub messages_of : List Polled → List Message
messages_of [] = []
messages_of (failed code ∷ rs) = messages_of rs
messages_of (fetched partition offset r ∷ rs) = receive partition offset r ∷ messages_of rs

abbrev pub errors_of : List Polled → List ℕ
errors_of [] = []
errors_of (failed code ∷ rs) = code ∷ errors_of rs
errors_of (fetched partition offset r ∷ rs) = errors_of rs

abbrev pub all_records : List Pass → List Polled
all_records [] = []
all_records (p ∷ ps) = p.records ++ all_records ps

abbrev pub length {ℓ} : {A : Type ℓ} → List A → ℕ
length [] = 0
length (x ∷ xs) = 1 + length xs

abbrev pub commits : List LoopEffect → ℕ
commits [] = 0
commits (commit_async ∷ es) = 1 + commits es
commits (_ ∷ es) = commits es

-- How often the consumer is closed, and the loop told to be over.
abbrev pub ends : List LoopEffect → List LoopEffect
ends [] = []
ends (close ∷ es) = close ∷ ends es
ends (release ∷ es) = release ∷ ends es
ends (_ ∷ es) = ends es

abbrev pub AreRunning : List Pass → Type 0
AreRunning [] = Unit
AreRunning (p ∷ ps) = ((p.running && not p.shutdown_requested) ≡ true) × AreRunning ps

-- What the passes of a loop that goes on do, seen from outside.
abbrev pub Consumes : List LoopEffect → List Polled → ℕ → Type 0
Consumes es rs n =
    (pushed es ≡ messages_of rs) × (codes es ≡ errors_of rs) × (commits es ≡ n) × (ends es ≡ [])

consume_records-Consumes :
    (rs more : List Polled) (es : List LoopEffect) (n : ℕ)
    → Consumes es more n
    → Consumes (consume_records rs ++ es) (rs ++ more) (1 + n)
unfolding consume_records
consume_records-Consumes [] more es n (a, b, c, d) = (a, b, ap (λ k. 1 + k) c, d)
consume_records-Consumes (failed code ∷ rs) more es n h =
    let (a, b, c, d) = consume_records-Consumes rs more es n h in (a, ap (λ l. code ∷ l) b, c, d)
consume_records-Consumes (fetched p o r ∷ rs) more es n h =
    let (a, b, c, d) = consume_records-Consumes rs more es n h in
    (ap (λ l. receive p o r ∷ l) a, b, c, d)

-- While both flags allow it for some passes, and at the first pass where one does not: the messages of
-- all records without an error are pushed to the worker, each once and in the order in which they were
-- polled, each error is reported, in order, and there is one commit for each pass; after all this the
-- consumer is closed once and the loop is over, whatever would come next.
pub start-Consumes :
    (ps qs : List Pass) (p : Pass)
    → AreRunning ps
    → (p.running && not p.shutdown_requested) ≡ false
    → (es : List LoopEffect) × (start (ps ++ p ∷ qs) ≡ es ++ close ∷ release ∷ [])
      × Consumes es (all_records ps) (length ps)
unfolding start
start-Consumes [] qs p h s = rw (s, start) ([], refl, (refl, refl, refl, refl))
start-Consumes (q ∷ ps) qs p (g, h) s =
    let (es, e, c) = start-Consumes ps qs p h s in
    (
      consume_records q.records ++ es,
      rw (g, start, e) (sym (append_assoc (consume_records q.records) es (close ∷ release ∷ []))),
      consume_records-Consumes q.records (all_records ps) es (length ps) c,
    )
