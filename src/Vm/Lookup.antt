-- ===== src/Vm/Lookup.antt =====
-- memregion_find_internal and validate_ptr: a pointer is accepted only inside one region.
use operating_system_osv.Base.{
  ℕ, ◌+◌, ◌^◌, ◌≤◌, ◌<◌, ◌≡◌, refl, ◌⊎◌, inl, inr, List, [], ◌∷◌, Bool, true, false, leb, ltb, ◌&&◌,
  arith, Option, none, some, Bool-cases,
}
use operating_system_osv.Vm.{
  Region, add_addr, pg_round_up, memregion_find, as_find_memregion, validate_ptr,
}

-- The addresses from `addr` to `addr + size`, without wrapping, lie between the region's start and
-- its end, rounded up to a page.
abbrev pub Encloses : ℕ → ℕ → Region → Type 0
Encloses addr size r = (r.start ≤ addr) × (addr + size ≤ pg_round_up r.end)

abbrev pub InRegions : Region → List Region → Type 0
InRegions r [] = ⊥
InRegions r (x ∷ xs) = (r ≡ x) ⊎ InRegions r xs

abbrev pub NoneEncloses : ℕ → ℕ → List Region → Type 0
NoneEncloses addr size [] = Unit
NoneEncloses addr size (r ∷ rs) = ¬ (Encloses addr size r) × NoneEncloses addr size rs

abbrev pub Looks : ℕ → ℕ → List Region → Option Region → Type 0
Looks addr size rs (some r) = InRegions r rs × Encloses addr size r
Looks addr size rs none = NoneEncloses addr size rs

memregion_find-Looks :
    (addr size : ℕ) (rs : List Region)
    → addr + size < 2 ^ 64
    → Looks addr size rs (memregion_find addr size rs)
unfolding memregion_find
memregion_find-Looks addr size [] h = tt
memregion_find-Looks addr size (r ∷ rs) h =
    elim (Bool-cases (leb r.start addr && leb (add_addr addr size) (pg_round_up r.end))) [
      | inl e ↦ rw e (inl refl, ground arith)
      | inr e ↦ rw e (later (memregion_find addr size rs) (memregion_find-Looks addr size rs h) e)
    ]
  where
    later :
        (o : Option Region)
        → Looks addr size rs o
        → (leb r.start addr && leb (add_addr addr size) (pg_round_up r.end)) ≡ false
        → Looks addr size (r ∷ rs) o
    later (some q) x e = (inr x.0, x.1)
    later none x e = (λ c. not_here e c, x)
      where
        not_here :
            (leb r.start addr && leb (add_addr addr size) (pg_round_up r.end)) ≡ false
            → Encloses addr size r
            → ⊥
        not_here e c = ground arith

abbrev pub Validates : ℕ → ℕ → List Region → Bool → Type 0
Validates ptr size rs true =
    (ptr + size < 2 ^ 64) × (r : Region) × InRegions r rs × Encloses ptr size r
Validates ptr size rs false = (2 ^ 64 ≤ ptr + size) ⊎ NoneEncloses ptr size rs

-- validate_ptr accepts a pointer exactly if the range of `size` bytes does not wrap and lies in one
-- region, its end rounded up to a page.
pub validate_ptr-Validates :
    (ptr size : ℕ) (rs : List Region)
    → ptr < 2 ^ 64
    → size < 2 ^ 64
    → Validates ptr size rs (validate_ptr ptr size rs)
unfolding validate_ptr as_find_memregion
validate_ptr-Validates ptr size rs hp hs = elim (Bool-cases (ltb (add_addr ptr size) ptr)) [
  | inl wraps ↦ rw wraps (inl (ground arith))
  | inr fits ↦
      let room : ptr + size < 2 ^ 64 = ground arith in
      rw fits (go (memregion_find ptr size rs) room (memregion_find-Looks ptr size rs room))
]
  where
    go :
        (o : Option Region)
        → ptr + size < 2 ^ 64
        → Looks ptr size rs o
        → Validates ptr size rs (elim o [ none ↦ false | some _ ↦ true ])
    go none h x = inr x
    go (some r) h x = (h, r, x.0, x.1)
