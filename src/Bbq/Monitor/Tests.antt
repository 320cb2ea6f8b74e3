-- ===== src/Bbq/Monitor/Tests.antt =====
-- One run of two threads.
use operating_system_osv.Base.{
  ℕ, ◌≡◌, refl, List, [], ◌∷◌, arith, length, replicate, length-replicate, ◌⊎◌,
}
use operating_system_osv.Bbq.{max_bbq_size, bbq_init, bbq_insert, bbq_remove}
use operating_system_osv.Bbq.Monitor.{
  Monitor, start, Reach, here, next, insert, remove, insert_section, remove_section, inserted,
  taken, signal_added,
}
use operating_system_osv.Bbq.Monitor.Fifo.{Inv, Reach-Inv, not_both_wait}

abbrev zeros : List ℕ
zeros = replicate max_bbq_size 0

zeros_size : length zeros ≡ max_bbq_size
zeros_size = length-replicate {A = ℕ} max_bbq_size 0

-- A remover comes first and waits; then an inserter sends the byte 7 and signals it.
abbrev waiting : Monitor
waiting = record (start zeros) { added = 1 ∷ [] }

abbrev signalled : Monitor
signalled = record (start zeros) {
  buf = record { items = 7 ∷ replicate 511 0; front = 0; next_empty = 1 };
  ready_removers = 1 ∷ [];
  sent = 7 ∷ [];
}

run : Reach zeros signalled
unfolding start bbq_init insert_section remove_section inserted taken signal_added bbq_insert
    bbq_remove
run = next {m = waiting} (next here (remove 1 refl)) (insert 2 7 refl)

Reach-Inv_example : Inv signalled
unfolding start
Reach-Inv_example = Reach-Inv zeros {m = signalled} zeros_size (omega arith) run

first_wait : Reach zeros waiting
unfolding start bbq_init remove_section taken bbq_remove
first_wait = next here (remove 1 refl)

not_both_wait_example : (waiting.added ≡ []) ⊎ (waiting.removed ≡ [])
unfolding start
not_both_wait_example =
    not_both_wait zeros {m = waiting} zeros_size (omega arith) first_wait refl refl
