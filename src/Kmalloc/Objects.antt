-- ===== src/Kmalloc/Objects.antt =====
-- kmem_cache_alloc and kmem_cache_free on a whole cache.
use operating_system_osv.Base.{
  ℕ, zero, suc, ◌<◌, ◌≡◌, ◌≢◌, refl, sym, ap, subst, List, [], ◌∷◌, ◌++◌, Option, some, false,
  arith, length, update, In, In-snoc, In-append_left, In-append_last, moved-In, Bool-cases, ◌↔◌,
  ◌⊎◌, inl, inr,
}
use operating_system_osv.Kmalloc.{
  Slab, new_slab, take_slot, give_slot, KmemCache, is_full, Allocated, object, no_memory, panicked,
  store_taken, taken, add_slab, alloc_new, alloc_from, kmem_cache_alloc, kmem_cache_free,
}
use operating_system_osv.Kmalloc.Slots.{
  Holds, count_up, take_slot-Holds, give_slot-Holds, new_slab-Holds,
}
use operating_system_osv.Kmalloc.Cache.{
  Inv, Listed, at_k, elsewhere, Holds_nil, Holds_cons, stays-Inv, fills-Inv, opens-Inv,
}

swap : {A B : Type 0} → A ⊎ B → B ⊎ A
swap (inl a) = inr a
swap (inr b) = inl b

abbrev pub rest : List ℕ → List ℕ
rest [] = []
rest (_ ∷ xs) = xs

-- An allocation from slab `k` hands out the first of its free slots, and leaves the slabs that are
-- `known` on the two lists, and no others.
abbrev pub HandsOut : (ℕ → Type 0) → (ℕ → List ℕ) → ℕ → List ℕ → Allocated → Type 0
HandsOut known slots k is (object k' i c') =
    (k' ≡ k)
    × (is ≡ i ∷ rest is)
    × Inv c' (update slots k (rest is))
    × ((m : ℕ) → known m ↔ Listed c' m)
HandsOut known slots k is _ = ⊥

store_taken-Inv :
    (c : KmemCache) (slots : ℕ → List ℕ) (k : ℕ) (s : Slab) (is : List ℕ)
    → Inv c slots
    → In k c.free
    → Holds s is
    → Inv (store_taken k c s) (update slots k is)
unfolding store_taken
store_taken-Inv c slots k s [] v here h = rw (Holds_nil s h) (fills-Inv v k s here h)
store_taken-Inv c slots k s (i ∷ is) v here h =
    rw (Holds_cons s i is h) (stays-Inv v k s i is here h)

store_taken-Listed :
    (c : KmemCache) (k m : ℕ) (s : Slab) → In k c.free → Listed c m ↔ Listed (store_taken k c s) m
unfolding store_taken
store_taken-Listed c k m s here = elim (Bool-cases (is_full s.free)) [
  | inl e ↦ rw e (moved-In k m c.free c.full here)
  | inr e ↦ rw e (λ x. x, λ x. x)
]

taken-HandsOut :
    (c : KmemCache) (slots : ℕ → List ℕ) (k : ℕ) (is : List ℕ)
    → Inv c slots
    → In k c.free
    → slots k ≡ is
    → HandsOut (Listed c) slots k is (taken k c (take_slot (c.slab k)))
unfolding taken
taken-HandsOut c slots k [] v here e = absurd ((v.open_slab k here).1 e)
taken-HandsOut c slots k (i ∷ is) v here e =
    let (s', t, h, _) =
      take_slot-Holds (c.slab k) i is
        (subst (λ xs. Holds (c.slab k) xs) e (v.open_slab k here).0) in
    rw t
      (refl, refl, store_taken-Inv c slots k s' is v here h, λ m. store_taken-Listed c k m s' here)

-- While some slab has a free slot, kmem_cache_alloc hands out the first free slot of the first slab
-- on the free list: a slot that was free, and that is free no more. It fails no assertion, and no
-- slab leaves or joins the two lists, of which each keeps just the slabs with, and without, free
-- slots.
pub kmem_cache_alloc_open :
    (c : KmemCache) (slots : ℕ → List ℕ) (n_objs k : ℕ) (ks : List ℕ) (fresh : Option ℕ)
    → Inv c slots
    → c.free ≡ k ∷ ks
    → HandsOut (Listed c) slots k (slots k) (kmem_cache_alloc n_objs fresh c)
unfolding kmem_cache_alloc alloc_from
kmem_cache_alloc_open c slots n_objs k ks fresh v e =
    subst (HandsOut (Listed c) slots k (slots k)) (sym (ap (alloc_from n_objs fresh c) e))
      (taken-HandsOut c slots k (slots k) v (rw e (inl refl)) refl)

add_slab-Inv :
    (c : KmemCache) (slots : ℕ → List ℕ) (n_objs k : ℕ)
    → Inv c slots
    → c.free ≡ []
    → (In k c.full → ⊥)
    → 0 < n_objs
    → Inv (add_slab n_objs k c) (update slots k (count_up n_objs 0))
unfolding add_slab
add_slab-Inv c slots n_objs k v e out h = record {
  open_slab = λ m l. only m (subst (λ xs. In m (xs ++ (k ∷ []))) e l);
  full_slab = λ m l.
      elsewhere c.slab slots k (new_slab n_objs) (count_up n_objs 0) (λ is. is ≡ []) m
        (λ q. out (subst (λ n. In n c.full) (sym q) l)) (v.full_slab m l);
  free_distinct = rw e ((λ x. x), tt);
  full_distinct = v.full_distinct;
  apart = λ m l r. clash m (subst (λ xs. In m (xs ++ (k ∷ []))) e l) r;
}
  where
    nonempty : (n : ℕ) → 0 < n → count_up n 0 ≢ []
    nonempty zero p q = elim p [ ]
    nonempty (suc n) p q = cc

    only :
        (m : ℕ)
        → In m (k ∷ [])
        → Holds (update c.slab k (new_slab n_objs) m) (update slots k (count_up n_objs 0) m)
          × (update slots k (count_up n_objs 0) m ≢ [])
    only m (inl q) =
        subst
          (λ n.
            Holds (update c.slab k (new_slab n_objs) n) (update slots k (count_up n_objs 0) n)
            × (update slots k (count_up n_objs 0) n ≢ []))
          (sym q)
          (at_k c.slab slots k (new_slab n_objs) (count_up n_objs 0) (λ is. is ≢ [])
            (new_slab-Holds n_objs h) (nonempty n_objs h))
    only m (inr x) = elim x [ ]

    clash : (m : ℕ) → In m (k ∷ []) → In m c.full → ⊥
    clash m (inl q) r = out (subst (λ n. In n c.full) q r)
    clash m (inr x) r = x

add_slab-Listed :
    (c : KmemCache) (n_objs k m : ℕ) → (Listed c m ⊎ (m ≡ k)) ↔ Listed (add_slab n_objs k c) m
unfolding add_slab
add_slab-Listed c n_objs k m = (there, back)
  where
    there : Listed c m ⊎ (m ≡ k) → In m (c.free ++ (k ∷ [])) ⊎ In m c.full
    there (inl (inl x)) = inl (In-append_left m c.free (k ∷ []) x)
    there (inl (inr x)) = inr x
    there (inr e) = inl (subst (λ n. In n (c.free ++ (k ∷ []))) (sym e) (In-append_last k c.free))

    snoc : In m c.free ⊎ (m ≡ k) → Listed c m ⊎ (m ≡ k)
    snoc (inl x) = inl (inl x)
    snoc (inr e) = inr e

    back : In m (c.free ++ (k ∷ [])) ⊎ In m c.full → Listed c m ⊎ (m ≡ k)
    back (inl x) = snoc (In-snoc k m c.free x)
    back (inr x) = inl (inr x)

HandsOut-known :
    (P Q : ℕ → Type 0) (slots : ℕ → List ℕ) (k : ℕ) (is : List ℕ) (o : Allocated)
    → ((m : ℕ) → Q m ↔ P m)
    → HandsOut P slots k is o
    → HandsOut Q slots k is o
HandsOut-known P Q slots k is (object k' i c') same (a, b, v, h) =
    (a, b, v, λ m. (λ x. (h m).0 ((same m).0 x), λ x. (same m).1 ((h m).1 x)))
HandsOut-known P Q slots k is no_memory same h = h
HandsOut-known P Q slots k is panicked same h = h

-- With no free slot in any slab, kmem_cache_alloc makes the slab `k` that pmem_nalloc gives, with
-- the slots from 0 to `n_objs - 1`, and hands out slot 0. It fails no assertion; `k`, which is on
-- neither list before, joins the slabs on the two lists, and no other leaves or joins them, and each
-- list keeps just the slabs with, and without, free slots.
pub kmem_cache_alloc_fresh :
    (c : KmemCache) (slots : ℕ → List ℕ) (n_objs k : ℕ)
    → Inv c slots
    → c.free ≡ []
    → (In k c.full → ⊥)
    → 0 < n_objs
    → HandsOut
        (λ m. Listed c m ⊎ (m ≡ k))
        (update slots k (count_up n_objs 0))
        k
        (count_up n_objs 0)
        (kmem_cache_alloc n_objs (some k) c)
unfolding kmem_cache_alloc alloc_from alloc_new
kmem_cache_alloc_fresh c slots n_objs k v e out h =
    subst
      (HandsOut (λ m. Listed c m ⊎ (m ≡ k)) (update slots k (count_up n_objs 0)) k
        (count_up n_objs 0))
      (sym (ap (alloc_from n_objs (some k) c) e))
      (HandsOut-known (Listed (add_slab n_objs k c)) (λ m. Listed c m ⊎ (m ≡ k))
        (update slots k (count_up n_objs 0)) k (count_up n_objs 0) _ (add_slab-Listed c n_objs k)
        (taken-HandsOut (add_slab n_objs k c) (update slots k (count_up n_objs 0)) k
          (count_up n_objs 0) (add_slab-Inv c slots n_objs k v e out h)
          (unfold add_slab in rw e (inl refl)) (ground arith)))

-- kmem_cache_free of a slot that is not free, in a slab of either list, makes it the slab's first
-- free slot and changes no other slot. The slab is on the free list after it, no slab leaves or
-- joins the two lists, and each keeps just the slabs with, and without, free slots.
pub kmem_cache_free-Inv :
    (c : KmemCache) (slots : ℕ → List ℕ) (k i : ℕ)
    → Inv c slots
    → In k c.free ⊎ In k c.full
    → (In i (slots k) → ⊥)
    → i < length (c.slab k).freearr
    → Inv (kmem_cache_free k i c) (update slots k (i ∷ slots k))
      × In k (kmem_cache_free k i c).free
      × ((m : ℕ) → Listed c m ↔ Listed (kmem_cache_free k i c) m)
unfolding kmem_cache_free
kmem_cache_free-Inv c slots k i v (inl here) out lt =
    let h = (v.open_slab k here).0 in
    rw (open_slab_not_full (slots k) h (v.open_slab k here).1) (
      stays-Inv v k (give_slot i (c.slab k)) i (slots k) here
          (give_slot-Holds (c.slab k) i (slots k) h lt out),
      here,
      λ m. (λ x. x, λ x. x),
    )
  where
    open_slab_not_full :
        (is : List ℕ) → Holds (c.slab k) is → is ≢ [] → is_full (c.slab k).free ≡ false
    open_slab_not_full [] h ne = absurd (ne refl)
    open_slab_not_full (j ∷ is) h ne = Holds_cons (c.slab k) j is h
kmem_cache_free-Inv c slots k i v (inr here) out lt =
    let h = (v.full_slab k here).0 in
    rw (Holds_nil (c.slab k) (subst (λ xs. Holds (c.slab k) xs) (v.full_slab k here).1 h)) (
      opens-Inv v k (give_slot i (c.slab k)) i (slots k) here
          (give_slot-Holds (c.slab k) i (slots k) h lt out),
      In-append_last k c.free,
      λ m. (
        λ x. swap ((moved-In k m c.full c.free here).0 (swap x)),
        λ x. swap ((moved-In k m c.full c.free here).1 (swap x)),
      ),
    )
