-- ===== src/Pipe/Writing.antt =====
-- The writing loop of pipe_write on a valid buffer.
use operating_system_osv.Base.{
  ℕ, suc, ◌+◌, ◌-◌, ◌^◌, ◌≤◌, ◌<◌, ◌≡◌, refl, List, [], ◌∷◌, ◌++◌, arith, length, length-append,
  take, append-nil, append_assoc, ap, sym, ◌∙◌, dec_lt,
}
use operating_system_osv.Bbq.{Bbq, Outcome, done, waits, fault, max_bbq_size, bbq_insert}
use operating_system_osv.Bbq.Refine.{
  IsValid, contents, queue_insert, Inserts, insert_refines, length-window,
}
use operating_system_osv.Pipe.{Call, returned, blocked, failed, broken, map_call, write_all}

-- What a write of `bs` has done to a buffer holding `xs`.
abbrev pub Writes : List ℕ → List ℕ → Call ℕ → Type 0
Writes bs xs (returned n q) = (n ≡ length bs) × (contents q ≡ xs ++ bs) × IsValid q
Writes bs xs _ = ⊥

-- A write that found no room for all of `bs`.
abbrev pub Fills : List ℕ → List ℕ → Call ℕ → Type 0
Fills bs xs (blocked n q) =
    (length xs + n ≡ max_bbq_size) × (contents q ≡ xs ++ take n bs) × IsValid q
Fills bs xs _ = ⊥

write_all-done :
    (x : ℕ) (xs : List ℕ) (q q' : Bbq)
    → bbq_insert q x ≡ done q'
    → write_all (x ∷ xs) q ≡ map_call suc (write_all xs q')
unfolding write_all
write_all-done x xs q q' p = rw (p, write_all)

write_all-waits :
    (x : ℕ) (xs : List ℕ) (q : Bbq) → bbq_insert q x ≡ waits → write_all (x ∷ xs) q ≡ blocked 0 q
unfolding write_all
write_all-waits x xs q p = rw (p, write_all)

insert_room :
    (q : Bbq) (x : ℕ)
    → IsValid q
    → q.next_empty + 1 < 2 ^ 31
    → length (contents q) < max_bbq_size
    → (q' : Bbq) × (bbq_insert q x ≡ done q')
      × (contents q' ≡ contents q ++ (x ∷ []))
      × IsValid q'
      × (q'.next_empty ≡ q.next_empty + 1)
unfolding queue_insert
insert_room q x v u h = go (bbq_insert q x) refl (insert_refines q x v)
  where
    go :
        (o : Outcome Bbq)
        → bbq_insert q x ≡ o
        → Inserts q x o (queue_insert (contents q) x)
        → (q' : Bbq) × (bbq_insert q x ≡ done q')
          × (contents q' ≡ contents q ++ (x ∷ []))
          × IsValid q'
          × (q'.next_empty ≡ q.next_empty + 1)
    go (done q') p r = (
      q',
      p,
      ground arith,
      ground (arith, length-window q.items q.front (q.next_empty - q.front)),
      ground arith,
    )
    go waits p r = absurd (ground arith)
    go fault p r = absurd (ground arith)

insert_full :
    (q : Bbq) (x : ℕ) → IsValid q → length (contents q) ≡ max_bbq_size → bbq_insert q x ≡ waits
unfolding queue_insert
insert_full q x v h = go (bbq_insert q x) refl (insert_refines q x v)
  where
    go :
        (o : Outcome Bbq)
        → bbq_insert q x ≡ o
        → Inserts q x o (queue_insert (contents q) x)
        → bbq_insert q x ≡ waits
    go (done q') p r = absurd (ground arith)
    go waits p r = p
    go fault p r = absurd (ground arith)

Writes-cons :
    (x : ℕ) (bs xs : List ℕ) (c : Call ℕ)
    → Writes bs (xs ++ (x ∷ [])) c
    → Writes (x ∷ bs) xs (map_call suc c)
Writes-cons x bs xs (returned n q) r = (ap suc r.0, r.1 ∙ append_assoc xs (x ∷ []) bs, r.2)
Writes-cons x bs xs (blocked n q) r = r
Writes-cons x bs xs (failed e) r = r
Writes-cons x bs xs broken r = r

Fills-cons :
    (x : ℕ) (bs xs : List ℕ) (c : Call ℕ)
    → Fills bs (xs ++ (x ∷ [])) c
    → Fills (x ∷ bs) xs (map_call suc c)
Fills-cons x bs xs (returned n q) r = r
Fills-cons x bs xs (blocked n q) r =
    (omega (arith, r.0, length-append xs (x ∷ [])), r.1 ∙ append_assoc xs (x ∷ []) (take n bs), r.2)
Fills-cons x bs xs (failed e) r = r
Fills-cons x bs xs broken r = r

pub write_all-Writes :
    (bs : List ℕ) (q : Bbq) (xs : List ℕ)
    → IsValid q
    → contents q ≡ xs
    → q.next_empty + length bs < 2 ^ 31
    → length xs + length bs ≤ max_bbq_size
    → Writes bs xs (write_all bs q)
unfolding write_all
write_all-Writes [] q xs v e u h = (refl, e ∙ sym (append-nil xs), v)
write_all-Writes (x ∷ bs) q xs v e u h =
    let (q', p, c, v', n) = insert_room q x v (omega arith) (rw e (omega arith)) in
    rw (write_all-done x bs q q' p) (
      Writes-cons x bs xs _ (
        write_all-Writes bs q' (xs ++ (x ∷ [])) v' (c ∙ ap (λ ys. ys ++ (x ∷ [])) e) (omega arith)
          (omega (arith, length-append xs (x ∷ [])))))

pub write_all-Fills :
    (bs : List ℕ) (q : Bbq) (xs : List ℕ)
    → IsValid q
    → contents q ≡ xs
    → length xs ≤ max_bbq_size
    → q.next_empty + length bs < 2 ^ 31
    → max_bbq_size < length xs + length bs
    → Fills bs xs (write_all bs q)
unfolding write_all
write_all-Fills [] q xs v e m u h = absurd (omega arith)
write_all-Fills (x ∷ bs) q xs v e m u h = elim (dec_lt (length xs) max_bbq_size) [
  | yes room ↦
      let (q', p, c, v', n) = insert_room q x v (omega arith) (rw e room) in
      rw (write_all-done x bs q q' p) (
        Fills-cons x bs xs _ (
          write_all-Fills bs q' (xs ++ (x ∷ [])) v' (c ∙ ap (λ ys. ys ++ (x ∷ [])) e)
            (omega (arith, length-append xs (x ∷ []))) (omega arith)
            (omega (arith, length-append xs (x ∷ [])))))
  | no full ↦
      rw (write_all-waits x bs q (insert_full q x v (rw e (omega arith))))
        (omega arith, e ∙ sym (append-nil xs), v)
]
