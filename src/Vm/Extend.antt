-- ===== src/Vm/Extend.antt =====
-- memregion_extend and sys_sbrk: a grown region never overlaps another one.
use operating_system_osv.Base.{
  ℕ, ◌≤◌, ◌<◌, ◌≡◌, ◌≢◌, refl, ◌⊎◌, inl, inr, List, [], ◌∷◌, true, false, not, ◌==◌, ◌&&◌, arith,
  vm_invalid, vm_bound, value, Bool-cases,
}
use operating_system_osv.Vm.{
  Region, add_addr, any_collision, collides, set_end, Extended, extended, refused, memregion_extend,
  sys_sbrk, after_extend,
}

-- Two regions have no address in common, if neither is inverted.
abbrev pub Apart : ℕ → ℕ → Region → Type 0
Apart start end r = (end ≤ r.start) ⊎ (r.end ≤ start)

-- Every other region of the list is apart from the one with this id.
abbrev pub AllApart : ℕ → ℕ → ℕ → List Region → Type 0
AllApart id start end [] = Unit
AllApart id start end (r ∷ rs) = ((r.id ≡ id) ⊎ Apart start end r) × AllApart id start end rs

any_collision-AllApart :
    (id start end : ℕ) (rs : List Region)
    → any_collision id start end rs ≡ false
    → AllApart id start end rs
unfolding any_collision
any_collision-AllApart id start end [] h = tt
any_collision-AllApart id start end (r ∷ rs) h =
    (ground arith, any_collision-AllApart id start end rs (ground arith))

set_end-AllApart :
    (id start end n : ℕ) (rs : List Region)
    → AllApart id start end rs
    → AllApart id start end (set_end id n rs)
unfolding set_end
set_end-AllApart id start end n [] h = tt
set_end-AllApart id start end n (r ∷ rs) h = (ground arith, set_end-AllApart id start end n rs h.1)

-- Of the range and the region, one starts at an address of the other.
abbrev pub Overlaps : ℕ → ℕ → Region → Type 0
Overlaps start end r = ((start ≤ r.start) × (r.start < end)) ⊎ ((r.start ≤ start) × (start < r.end))

-- Some other region of the list overlaps the one with this id.
abbrev pub SomeOverlaps : ℕ → ℕ → ℕ → List Region → Type 0
SomeOverlaps id start end [] = ⊥
SomeOverlaps id start end (r ∷ rs) =
    ((r.id ≢ id) × Overlaps start end r) ⊎ SomeOverlaps id start end rs

collision-SomeOverlaps :
    (id start end : ℕ) (rs : List Region)
    → any_collision id start end rs ≡ true
    → SomeOverlaps id start end rs
unfolding any_collision
collision-SomeOverlaps id start end [] h = absurd (ground (arith, h))
collision-SomeOverlaps id start end (r ∷ rs) h =
    elim (Bool-cases (not (r.id == id) && collides start end r)) [
      | inl e ↦ inl (ground (arith, e))
      | inr e ↦ inr (collision-SomeOverlaps id start end rs (rw e at h))
    ]

-- What memregion_extend has done to the regions.
abbrev pub Extends : Region → ℕ → List Region → Extended → Type 0
Extends r size rs (extended old rs') =
    (old ≡ r.end)
    × (((size ≡ 0) × (rs' ≡ rs))
        ⊎ ((rs' ≡ set_end r.id (add_addr r.end size) rs)
            × (r.start ≤ add_addr r.end size)
            × AllApart r.id r.start (add_addr r.end size) rs'))
Extends r size rs (refused vm_invalid) = (size ≢ 0) × (add_addr r.end size < r.start)
Extends r size rs (refused vm_bound) =
    (size ≢ 0)
    × (r.start ≤ add_addr r.end size)
    × SomeOverlaps r.id r.start (add_addr r.end size) rs
Extends r size rs (refused _) = ⊥

-- memregion_extend reports the old end and either changes nothing, for size 0, or moves the end of
-- its region alone by `size`, after which the region is not inverted and no other region of the
-- address space overlaps it. It refuses only a size other than 0: with ERR_VM_INVALID an inverted
-- result, with ERR_VM_BOUND another one with which some other region overlaps: one of the two
-- starts at an address of the other.
pub memregion_extend-Extends :
    (r : Region) (size : ℕ) (rs : List Region) → Extends r size rs (memregion_extend r size rs)
unfolding memregion_extend
memregion_extend-Extends r size rs =
    elim (Bool-cases (any_collision r.id r.start (add_addr r.end size) rs)) [
      | inl hit ↦
          let over = collision-SomeOverlaps r.id r.start (add_addr r.end size) rs hit in
          ground (arith, hit, over)
      | inr free ↦
          let apart =
            set_end-AllApart r.id r.start (add_addr r.end size) (add_addr r.end size) rs
              (any_collision-AllApart r.id r.start (add_addr r.end size) rs free) in
          ground (arith, free, apart)
    ]

-- sys_sbrk returns the old end of the heap whether or not memregion_extend refuses, and never an
-- error; if it refuses, the regions stay as they were.
pub sys_sbrk_lem :
    (heap : Region) (increment : ℕ) (rs : List Region)
    → ((sys_sbrk heap increment rs).0 ≡ value heap.end)
      × (((sys_sbrk heap increment rs).1 ≡ rs)
          ⊎ AllApart heap.id heap.start
              (add_addr heap.end increment)
              (sys_sbrk heap increment rs).1)
unfolding sys_sbrk after_extend
sys_sbrk_lem heap increment rs =
    go (memregion_extend heap increment rs) (memregion_extend-Extends heap increment rs)
  where
    go :
        (o : Extended)
        → Extends heap increment rs o
        → ((after_extend heap rs o).0 ≡ value heap.end)
          × (((after_extend heap rs o).1 ≡ rs)
              ⊎ AllApart heap.id heap.start
                  (add_addr heap.end increment)
                  (after_extend heap rs o).1)
    go (extended old rs') (e, inl (z, q)) = (cc, inl q)
    go (extended old rs') (e, inr (a, b, c)) = (cc, inr c)
    go (refused er) x = (refl, inl refl)
