-- ===== src/Bbq/Monitor/Fifo.antt =====
-- Every run of the threads: the bytes come out in the order in which they went in, and no thread
-- sleeps through a wakeup.
use operating_system_osv.Base.{
  ℕ, ◌+◌, ◌-◌, ◌^◌, ◌≤◌, ◌<◌, ◌≡◌, refl, List, [], ◌∷◌, ◌++◌, arith, length, length-append,
  append_assoc, ◌⊎◌,
}
use operating_system_osv.Bbq.{Bbq, Outcome, done, waits, fault, max_bbq_size, bbq_init}
use operating_system_osv.Bbq.Refine.{
  IsValid, contents, queue_insert, queue_remove, Inserts, Removes, insert_refines, remove_refines,
  length-window,
}
use operating_system_osv.Bbq.Monitor.{
  Monitor, inserted, insert_section, taken, remove_section, Step, insert, remove, resume_insert,
  resume_remove, start, Reach, here, next,
}

abbrev pub held : Monitor → ℕ
held m = m.buf.next_empty - m.buf.front

pub record Inv (m : Monitor) : Type 0 where
  pub size : length m.buf.items ≡ max_bbq_size
  pub ordered : m.buf.front ≤ m.buf.next_empty
  pub bounded : m.buf.next_empty ≤ m.buf.front + max_bbq_size
  pub counted : m.buf.next_empty ≡ length m.sent
  pub fifo : m.sent ≡ m.received ++ contents m.buf
  -- While a remover waits, every byte held has a signalled remover on its way; the same for the
  -- free places and the inserters.
  pub removers : (m.added ≡ []) ⊎ (held m ≤ length m.ready_removers)
  pub inserters : (m.removed ≡ []) ⊎ (max_bbq_size ≤ held m + length m.ready_inserters)

valid : {m : Monitor} → Inv m → length m.sent < 2 ^ 31 → IsValid m.buf
valid i h = omega arith

-- `Inv` with allowances: a signalled inserter or remover that runs again has left its ready list.
record Running (inserters_out removers_out : ℕ) (m : Monitor) : Type 0 where
  size : length m.buf.items ≡ max_bbq_size
  ordered : m.buf.front ≤ m.buf.next_empty
  bounded : m.buf.next_empty ≤ m.buf.front + max_bbq_size
  counted : m.buf.next_empty ≡ length m.sent
  fifo : m.sent ≡ m.received ++ contents m.buf
  removers : (m.added ≡ []) ⊎ (held m ≤ length m.ready_removers + removers_out)
  inserters : (m.removed ≡ []) ⊎ (max_bbq_size ≤ held m + length m.ready_inserters + inserters_out)

inserted-Inv :
    (t x s : ℕ) (m : Monitor) (o : Outcome Bbq) {m' : Monitor}
    → s ≤ 1
    → Running s 0 m
    → Inserts m.buf x o (queue_insert (contents m.buf) x)
    → inserted t x m o ≡ done m'
    → Inv m'
unfolding inserted queue_insert
inserted-Inv t x s m waits few r i e =
    ground (arith, length-window m.buf.items m.buf.front (held m))
inserted-Inv t x s m (done q) {m'} few r i e = step m.added refl
  where
    facts :
        (contents q ≡ contents m.buf ++ (x ∷ []))
        × (q.front ≡ m.buf.front)
        × (q.next_empty ≡ m.buf.next_empty + 1)
        × (length q.items ≡ max_bbq_size)
        × (held m < max_bbq_size)
    facts = ground (arith, length-window m.buf.items m.buf.front (held m))

    sent_fifo : m.sent ++ (x ∷ []) ≡ m.received ++ contents q
    sent_fifo = ground (arith, append_assoc m.received (contents m.buf) (x ∷ []))

    step : (ts : List ℕ) → m.added ≡ ts → Inv m'
    step [] n = ground (arith, facts, sent_fifo, length-append m.sent (x ∷ []))
    step (u ∷ ts) n = ground (
      arith,
      facts,
      sent_fifo,
      length-append m.sent (x ∷ []),
      length-append m.ready_removers (u ∷ []),
    )
inserted-Inv t x s m fault few r i e = cc

taken-Inv :
    (t s : ℕ) (m : Monitor) (o : Outcome (ℕ × Bbq)) {m' : Monitor}
    → s ≤ 1
    → Running 0 s m
    → Removes m.buf o (queue_remove (contents m.buf))
    → taken t m o ≡ done m'
    → Inv m'
unfolding taken queue_remove
taken-Inv t s m waits few r i e = ground (arith, length-window m.buf.items m.buf.front (held m))
taken-Inv t s m (done (x, q)) {m'} few r i e = step m.removed refl
  where
    facts :
        (contents m.buf ≡ x ∷ contents q)
        × (q.front ≡ m.buf.front + 1)
        × (q.next_empty ≡ m.buf.next_empty)
        × (length q.items ≡ max_bbq_size)
        × (q.front ≤ q.next_empty)
        × (q.next_empty ≤ q.front + max_bbq_size)
    facts = ground arith

    sent_fifo : m.sent ≡ (m.received ++ (x ∷ [])) ++ contents q
    sent_fifo = ground (arith, append_assoc m.received (x ∷ []) (contents q))

    step : (ts : List ℕ) → m.removed ≡ ts → Inv m'
    step [] n = ground (arith, facts, sent_fifo)
    step (u ∷ ts) n = ground (arith, facts, sent_fifo, length-append m.ready_inserters (u ∷ []))
taken-Inv t s m fault few r i e = cc

running : {m : Monitor} → Inv m → Running 0 0 m
running v = ground arith

insert_section-Inv :
    (t x s : ℕ) (m : Monitor) {m' : Monitor}
    → s ≤ 1
    → length m.sent < 2 ^ 31
    → Running s 0 m
    → insert_section t x m ≡ done m'
    → Inv m'
unfolding insert_section
insert_section-Inv t x s m few h r e =
    inserted-Inv t x s m _ few r (insert_refines m.buf x (omega arith)) e

remove_section-Inv :
    (t s : ℕ) (m : Monitor) {m' : Monitor}
    → s ≤ 1
    → length m.sent < 2 ^ 31
    → Running 0 s m
    → remove_section t m ≡ done m'
    → Inv m'
unfolding remove_section
remove_section-Inv t s m few h r e = taken-Inv t s m _ few r (remove_refines m.buf (omega arith)) e

Step-Inv : {m m' : Monitor} → length m.sent < 2 ^ 31 → Step m m' → Inv m → Inv m'
Step-Inv {m} h (insert t x e) v = insert_section-Inv t x 0 m (omega arith) h (running v) e
Step-Inv {m} h (remove t e) v = remove_section-Inv t 0 m (omega arith) h (running v) e
Step-Inv {m} h (resume_insert t x before after l e) v =
    insert_section-Inv t x 1 (record m { ready_inserters = before ++ after }) (omega arith) h
      (ground (arith, length-append before (t ∷ after), length-append before after, v)) e
Step-Inv {m} h (resume_remove t before after l e) v =
    remove_section-Inv t 1 (record m { ready_removers = before ++ after }) (omega arith) h
      (ground (arith, length-append before (t ∷ after), length-append before after, v)) e

inserted-sent :
    (t x : ℕ) (m : Monitor) (o : Outcome Bbq) {m' : Monitor}
    → inserted t x m o ≡ done m'
    → length m.sent ≤ length m'.sent
unfolding inserted
inserted-sent t x m waits e = ground arith
inserted-sent t x m (done q) {m'} e = step m.added refl
  where
    step : (ts : List ℕ) → m.added ≡ ts → length m.sent ≤ length m'.sent
    step [] n = ground (arith, length-append m.sent (x ∷ []))
    step (u ∷ ts) n = ground (arith, length-append m.sent (x ∷ []))
inserted-sent t x m fault e = cc

taken-sent :
    (t : ℕ) (m : Monitor) (o : Outcome (ℕ × Bbq)) {m' : Monitor}
    → taken t m o ≡ done m'
    → length m.sent ≤ length m'.sent
unfolding taken
taken-sent t m waits e = ground arith
taken-sent t m (done (x, q)) {m'} e = step m.removed refl
  where
    step : (ts : List ℕ) → m.removed ≡ ts → length m.sent ≤ length m'.sent
    step [] n = ground arith
    step (u ∷ ts) n = ground arith
taken-sent t m fault e = cc

Step-sent : {m m' : Monitor} → Step m m' → length m.sent ≤ length m'.sent
unfolding insert_section remove_section
Step-sent {m} (insert t x e) = inserted-sent t x m _ e
Step-sent {m} (remove t e) = taken-sent t m _ e
Step-sent {m} (resume_insert t x before after l e) = inserted-sent t x _ _ e
Step-sent {m} (resume_remove t before after l e) = taken-sent t _ _ e

start-Inv : (bytes : List ℕ) → length bytes ≡ max_bbq_size → Inv (start bytes)
unfolding start bbq_init
start-Inv bytes s = ground arith

-- In every state that threads reach from a fresh buffer by fewer than 2^31 insertions: the bytes
-- sent are the bytes received followed by the at most 512 bytes held, in that order; and while a
-- thread waits to remove (to insert), each byte held (each free place) has a signalled thread on
-- its way to it.
pub Reach-Inv :
    (bytes : List ℕ) {m : Monitor}
    → length bytes ≡ max_bbq_size
    → length m.sent < 2 ^ 31
    → Reach bytes m
    → Inv m
Reach-Inv bytes s h here = start-Inv bytes s
Reach-Inv bytes s h (next r st) =
    Step-Inv (omega (arith, Step-sent st)) st (Reach-Inv bytes s (omega (arith, Step-sent st)) r)

-- In every such state in which nobody is signalled, not both an inserter and a remover wait: of the
-- two condition variables at least one has no waiters.
pub not_both_wait :
    (bytes : List ℕ) {m : Monitor}
    → length bytes ≡ max_bbq_size
    → length m.sent < 2 ^ 31
    → Reach bytes m
    → m.ready_removers ≡ []
    → m.ready_inserters ≡ []
    → (m.added ≡ []) ⊎ (m.removed ≡ [])
not_both_wait bytes {m} s h r a b = ground (arith, Reach-Inv bytes s h r)
