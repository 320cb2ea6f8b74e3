-- ===== src/Bbq/Monitor.antt =====
-- Threads that call bbq_insert and bbq_remove: critical sections as atomic steps, with the
-- condition variables `item_added` and `item_removed` of kernel/synch.c as lists of waiters.
-- A signalled thread is ready, and runs its section from the loop's test again; between the
-- signal and that, other threads may run theirs. Threads run in any order.
pub mod Fifo
mod Tests
use operating_system_osv.Base.{ℕ, ◌≡◌, List, [], ◌∷◌, ◌++◌}
use operating_system_osv.Bbq.{Bbq, Outcome, done, waits, fault, bbq_init, bbq_insert, bbq_remove}

pub record Monitor : Type 0 where
  pub buf : Bbq
  -- waiters of `item_added` and `item_removed`, oldest first
  pub added : List ℕ
  pub removed : List ℕ
  -- signalled removers and inserters that have not run again yet
  pub ready_removers : List ℕ
  pub ready_inserters : List ℕ
  -- the bytes that have gone in and come out, oldest first
  pub sent : List ℕ
  pub received : List ℕ

-- condvar_signal: the oldest waiter, if there is one, becomes ready.
signal_added : List ℕ → Monitor → Monitor
signal_added [] m = m
signal_added (t ∷ ts) m = record m { added = ts; ready_removers = m.ready_removers ++ (t ∷ []) }

signal_removed : List ℕ → Monitor → Monitor
signal_removed [] m = m
signal_removed (t ∷ ts) m = record m {
  removed = ts;
  ready_inserters = m.ready_inserters ++ (t ∷ []);
}

-- What thread `t` does in its turn inside bbq_insert: wait on `item_removed`, or insert and signal
-- `item_added`.
inserted : ℕ → ℕ → Monitor → Outcome Bbq → Outcome Monitor
unfolding signal_added
inserted t x m waits = done (record m { removed = m.removed ++ (t ∷ []) })
inserted t x m (done q) =
    done (signal_added m.added (record m { buf = q; sent = m.sent ++ (x ∷ []) }))
inserted t x m fault = fault

pub insert_section : ℕ → ℕ → Monitor → Outcome Monitor
unfolding inserted
insert_section t x m = inserted t x m (bbq_insert m.buf x)

taken : ℕ → Monitor → Outcome (ℕ × Bbq) → Outcome Monitor
unfolding signal_removed
taken t m waits = done (record m { added = m.added ++ (t ∷ []) })
taken t m (done (x, q)) =
    done (signal_removed m.removed (record m { buf = q; received = m.received ++ (x ∷ []) }))
taken t m fault = fault

pub remove_section : ℕ → Monitor → Outcome Monitor
unfolding taken
remove_section t m = taken t m (bbq_remove m.buf)

-- A thread enters a call, or one that was signalled goes on.
pub data Step (m m' : Monitor) : Type 0 where
  insert : (t x : ℕ) → insert_section t x m ≡ done m' → Step m m'
  remove : (t : ℕ) → remove_section t m ≡ done m' → Step m m'
  resume_insert :
      (t x : ℕ) (before after : List ℕ)
      → m.ready_inserters ≡ before ++ (t ∷ after)
      → insert_section t x (record m { ready_inserters = before ++ after }) ≡ done m'
      → Step m m'
  resume_remove :
      (t : ℕ) (before after : List ℕ)
      → m.ready_removers ≡ before ++ (t ∷ after)
      → remove_section t (record m { ready_removers = before ++ after }) ≡ done m'
      → Step m m'

pub start : List ℕ → Monitor
start bytes = record {
  buf = bbq_init bytes;
  added = [];
  removed = [];
  ready_removers = [];
  ready_inserters = [];
  sent = [];
  received = [];
}

pub data Reach (bytes : List ℕ) : Monitor → Type 0 where
  here : Reach bytes (start bytes)
  next : {m m' : Monitor} → Reach bytes m → Step m m' → Reach bytes m'
