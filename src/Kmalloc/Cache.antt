-- ===== src/Kmalloc/Cache.antt =====
-- A whole object cache: slabs with free slots are on one list, full slabs on the other, and no slot
-- is handed out twice.
use operating_system_osv.Base.{
  ℕ, ◌≡◌, ◌≢◌, refl, sym, subst, List, [], ◌∷◌, ◌++◌, Option, none, some, true, false, arith,
  update, erase, In, ◌⊎◌, inl, inr, Distinct, Distinct-snoc, Distinct-erase, In-snoc, In-erase,
  not_In-erase, ℕ_discrete,
}
use operating_system_osv.Kmalloc.{Slab, KmemCache, is_full}
use operating_system_osv.Kmalloc.Slots.{Chain, Holds}

-- `slots k` are the free slots of slab `k`, in the order in which they will be handed out.
pub record Inv (c : KmemCache) (slots : ℕ → List ℕ) : Type 0 where
  pub open_slab : (k : ℕ) → In k c.free → Holds (c.slab k) (slots k) × (slots k ≢ [])
  pub full_slab : (k : ℕ) → In k c.full → Holds (c.slab k) (slots k) × (slots k ≡ [])
  pub free_distinct : Distinct c.free
  pub full_distinct : Distinct c.full
  pub apart : (k : ℕ) → In k c.free → In k c.full → ⊥

-- The slab is on one of the two lists.
abbrev pub Listed : KmemCache → ℕ → Type 0
Listed c k = In k c.free ⊎ In k c.full

pub Holds_nil : (s : Slab) → Holds s [] → is_full s.free ≡ true
Holds_nil s h = go s.free h
  where
    go : (o : Option ℕ) → Chain s.freearr o [] → is_full o ≡ true
    go none c = refl
    go (some i) c = elim c [ ]

pub Holds_cons : (s : Slab) (i : ℕ) (is : List ℕ) → Holds s (i ∷ is) → is_full s.free ≡ false
Holds_cons s i is h = go s.free h
  where
    go : (o : Option ℕ) → Chain s.freearr o (i ∷ is) → is_full o ≡ false
    go none c = elim c [ ]
    go (some j) c = refl

-- What holds of slab `m`, when slab `k` becomes `s` with the free slots `is`.
module _ (f : ℕ → Slab) (slots : ℕ → List ℕ) (k : ℕ) (s : Slab) (is : List ℕ) where
  pub at_k :
      (P : List ℕ → Type 0)
      → Holds s is
      → P is
      → Holds (update f k s k) (update slots k is k) × P (update slots k is k)
  at_k P h p =
      let e : update f k s k ≡ s = ground arith in
      let e' : update slots k is k ≡ is = ground arith in (rw (e, e') h, subst P (sym e') p)

  pub elsewhere :
      (P : List ℕ → Type 0) (m : ℕ)
      → k ≢ m
      → Holds (f m) (slots m) × P (slots m)
      → Holds (update f k s m) (update slots k is m) × P (update slots k is m)
  elsewhere P m ne h =
      let e : update f k s m ≡ f m = ground arith in
      let e' : update slots k is m ≡ slots m = ground arith in
      (rw (e, e') h.0, subst P (sym e') h.1)

abbrev IsOpen : List ℕ → Type 0
IsOpen is = is ≢ []

abbrev IsEmpty : List ℕ → Type 0
IsEmpty is = is ≡ []

module _ {c : KmemCache} {slots : ℕ → List ℕ} (v : Inv c slots) (k : ℕ) (s : Slab) where
  -- Slab `k` of the free list still has free slots.
  pub stays-Inv :
      (i : ℕ) (is : List ℕ)
      → In k c.free
      → Holds s (i ∷ is)
      → Inv (record c { slab = update c.slab k s }) (update slots k (i ∷ is))
  stays-Inv i is here h = record {
    open_slab = λ m l. elim (ℕ_discrete k m) [
      | yes e ↦
          subst
            (λ n.
              Holds (update c.slab k s n) (update slots k (i ∷ is) n)
              × IsOpen (update slots k (i ∷ is) n))
            e (at_k c.slab slots k s (i ∷ is) IsOpen h (λ e. cc))
      | no ne ↦ elsewhere c.slab slots k s (i ∷ is) IsOpen m ne (v.open_slab m l)
    ];
    full_slab = λ m l.
        elsewhere c.slab slots k s (i ∷ is) IsEmpty m
          (λ e. v.apart k here (subst (λ n. In n c.full) (sym e) l)) (v.full_slab m l);
    free_distinct = v.free_distinct;
    full_distinct = v.full_distinct;
    apart = v.apart;
  }

  -- Slab `k` of the free list has given its last slot, and moves.
  pub fills-Inv :
      In k c.free
      → Holds s []
      → Inv
          (record c { slab = update c.slab k s; free = erase k c.free; full = c.full ++ (k ∷ []) })
          (update slots k [])
  fills-Inv here h = record {
    open_slab = λ m l.
        elsewhere c.slab slots k s [] IsOpen m
          (λ e.
            not_In-erase k c.free v.free_distinct (subst (λ n. In n (erase k c.free)) (sym e) l))
          (v.open_slab m (In-erase k m c.free l));
    full_slab = λ m l. full m (In-snoc k m c.full l);
    free_distinct = Distinct-erase k c.free v.free_distinct;
    full_distinct = Distinct-snoc k c.full (v.apart k here) v.full_distinct;
    apart = λ m l r. clash m l (In-snoc k m c.full r);
  }
    where
      full :
          (m : ℕ)
          → In m c.full ⊎ (m ≡ k)
          → Holds (update c.slab k s m) (update slots k [] m) × IsEmpty (update slots k [] m)
      full m (inl l) =
          elsewhere c.slab slots k s [] IsEmpty m
            (λ e. v.apart k here (subst (λ n. In n c.full) (sym e) l)) (v.full_slab m l)
      full m (inr e) =
          subst
            (λ n. Holds (update c.slab k s n) (update slots k [] n) × IsEmpty (update slots k [] n))
            (sym e) (at_k c.slab slots k s [] IsEmpty h refl)

      clash : (m : ℕ) → In m (erase k c.free) → In m c.full ⊎ (m ≡ k) → ⊥
      clash m l (inl r) = v.apart m (In-erase k m c.free l) r
      clash m l (inr e) =
          not_In-erase k c.free v.free_distinct (subst (λ n. In n (erase k c.free)) e l)

  -- Slab `k` of the full list has got a slot back, and moves.
  pub opens-Inv :
      (i : ℕ) (is : List ℕ)
      → In k c.full
      → Holds s (i ∷ is)
      → Inv
          (record c { slab = update c.slab k s; full = erase k c.full; free = c.free ++ (k ∷ []) })
          (update slots k (i ∷ is))
  opens-Inv i is here h = record {
    open_slab = λ m l. opened m (In-snoc k m c.free l);
    full_slab = λ m l.
        elsewhere c.slab slots k s (i ∷ is) IsEmpty m
          (λ e.
            not_In-erase k c.full v.full_distinct (subst (λ n. In n (erase k c.full)) (sym e) l))
          (v.full_slab m (In-erase k m c.full l));
    free_distinct = Distinct-snoc k c.free (λ l. v.apart k l here) v.free_distinct;
    full_distinct = Distinct-erase k c.full v.full_distinct;
    apart = λ m l r. clash m (In-snoc k m c.free l) r;
  }
    where
      opened :
          (m : ℕ)
          → In m c.free ⊎ (m ≡ k)
          → Holds (update c.slab k s m) (update slots k (i ∷ is) m)
            × IsOpen (update slots k (i ∷ is) m)
      opened m (inl l) =
          elsewhere c.slab slots k s (i ∷ is) IsOpen m
            (λ e. v.apart k (subst (λ n. In n c.free) (sym e) l) here) (v.open_slab m l)
      opened m (inr e) =
          subst
            (λ n.
              Holds (update c.slab k s n) (update slots k (i ∷ is) n)
              × IsOpen (update slots k (i ∷ is) n))
            (sym e) (at_k c.slab slots k s (i ∷ is) IsOpen h (λ e. cc))

      clash : (m : ℕ) → In m c.free ⊎ (m ≡ k) → In m (erase k c.full) → ⊥
      clash m (inl l) r = v.apart m l (In-erase k m c.full r)
      clash m (inr e) r =
          not_In-erase k c.full v.full_distinct (subst (λ n. In n (erase k c.full)) e r)
