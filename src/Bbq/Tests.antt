-- ===== src/Bbq/Tests.antt =====
-- The bounded buffer on concrete buffers.
use operating_system_osv.Base.{
  ℕ, ◌+◌, ◌^◌, ◌≡◌, refl, List, [], ◌∷◌, ◌++◌, arith, length, replicate, length-replicate,
}
use operating_system_osv.Bbq.{Bbq, max_bbq_size, bbq_init, bbq_insert, bbq_remove}
use operating_system_osv.Bbq.Refine.{
  IsValid, contents, queue_insert, queue_remove, Inserts, Removes, insert_refines, remove_refines,
}
use operating_system_osv.Bbq.Wrap.{Empties, rounds, rounds_fault}

abbrev zeros : List ℕ
zeros = replicate max_bbq_size 0

zeros_size : length zeros ≡ max_bbq_size
zeros_size = length-replicate {A = ℕ} max_bbq_size 0

-- Three bytes held, the last of them at the start of `items`.
abbrev wrapped : Bbq
wrapped = record { items = 5 ∷ replicate 509 0 ++ (3 ∷ 4 ∷ []); front = 510; next_empty = 513 }

abbrev fresh : Bbq
fresh = bbq_init zeros

fresh-IsValid : IsValid fresh
unfolding bbq_init
fresh-IsValid = record {
  size = zeros_size;
  ordered = omega arith;
  bounded = omega arith;
  unwrapped = omega arith;
}

wrapped-IsValid : IsValid wrapped
wrapped-IsValid = record {
  size = refl;
  ordered = omega arith;
  bounded = omega arith;
  unwrapped = omega arith;
}

insert_refines_example :
    Inserts wrapped 6 (bbq_insert wrapped 6) (queue_insert (contents wrapped) 6)
insert_refines_example = insert_refines wrapped 6 wrapped-IsValid

remove_refines_example : Removes wrapped (bbq_remove wrapped) (queue_remove (contents wrapped))
remove_refines_example = remove_refines wrapped wrapped-IsValid

rounds_fault_example : Empties (2 ^ 31 + 1) (rounds (2 ^ 31 + 1) 7 fresh)
rounds_fault_example = rounds_fault (2 ^ 31 + 1) 7 zeros zeros_size (omega arith)
