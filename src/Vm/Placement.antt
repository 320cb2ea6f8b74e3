-- ===== src/Vm/Placement.antt =====
-- find_free_vaddr: the range it gives is clear of every region.
use operating_system_osv.Base.{
  ℕ, ◌+◌, ◌-◌, ◌%◌, ◌^◌, ◌≤◌, ◌<◌, ◌≡◌, ◌⊎◌, inl, inr, List, [], ◌∷◌, Option, none, some, false,
  ltb, arith, Bool-cases, ltb→lt,
}
use operating_system_osv.Vm.{Region, pg_round_up, add_addr, free_from, first_end, find_free_vaddr}

-- Regions in order of their addresses from `lo` on, each from the next page after the one before,
-- and below 2^62.
abbrev pub InOrder : ℕ → List Region → Type 0
InOrder lo [] = Unit
InOrder lo (r ∷ rs) =
    (lo ≤ r.start) × (r.start ≤ r.end) × (r.end ≤ 2 ^ 62) × InOrder (pg_round_up r.end) rs

-- The `size` bytes from `addr` on lie before or after each region's pages.
abbrev pub AllClear : ℕ → ℕ → List Region → Type 0
AllClear addr size [] = Unit
AllClear addr size (r ∷ rs) =
    ((addr + size < r.start) ⊎ (pg_round_up r.end ≤ addr)) × AllClear addr size rs

-- The first page after the regions.
abbrev pub top : ℕ → List Region → ℕ
top lo [] = lo
top lo (r ∷ rs) = top (pg_round_up r.end) rs

-- Each gap between two regions from `lo` on has less than a page of room beside `size` bytes.
abbrev pub TooSmall : ℕ → ℕ → List Region → Type 0
TooSmall lo size [] = Unit
TooSmall lo size (r ∷ rs) = (r.start ≤ lo + size + 4095) × TooSmall (pg_round_up r.end) size rs

-- A range from `lo` on that is below the stack and clear of the regions; or none, and no gap has
-- the room, while behind the regions there is less than twice the size and a page.
abbrev pub Places : ℕ → ℕ → ℕ → List Region → Option ℕ → Type 0
Places lower lo size rs none = TooSmall lo size rs × (lower ≤ top lo rs + size + size + 4095)
Places lower lo size rs (some addr) = (lo ≤ addr) × (addr + size < lower) × AllClear addr size rs

round_bounds : (a : ℕ) → a ≤ 2 ^ 63 → (a ≤ pg_round_up a) × (pg_round_up a ≤ a + 4095)
round_bounds a h = (omega arith, omega arith)

not_below : (a b : ℕ) → ltb a b ≡ false → b ≤ a
not_below a b e = ground arith

before_all :
    (addr size lo : ℕ) (rs : List Region) → addr + size < lo → InOrder lo rs → AllClear addr size rs
before_all addr size lo [] h o = tt
before_all addr size lo (r ∷ rs) h o = (
  inl (omega (arith, h, o.0)),
  before_all addr size (pg_round_up r.end) rs
      (omega (arith, h, o.0, o.1, (round_bounds r.end (omega (arith, o.2))).0)) o.3,
)

free_from-Places :
    (lower size addr : ℕ) (rs : List Region)
    → (size ≤ 2 ^ 62) × (2 ^ 62 ≤ lower) × (lower < 2 ^ 64)
    → addr ≤ 2 ^ 62 + 4095
    → InOrder addr rs
    → Places lower addr size rs (free_from lower size addr rs)
unfolding free_from
free_from-Places lower size addr [] h k o =
    elim (Bool-cases (ltb (pg_round_up (add_addr addr size)) ((lower + 2 ^ 64 - size) % 2 ^ 64))) [
      | inl e ↦ rw e (omega arith, omega (arith, h, k, ltb→lt _ _ e), tt)
      | inr e ↦ rw e (tt, omega (arith, h, k, not_below _ _ e))
    ]
free_from-Places lower size addr (r ∷ rs) h k o =
    elim (Bool-cases (ltb (pg_round_up (add_addr addr size)) r.start)) [
      | inl e ↦
          let clear : addr + size < r.start = below r (ltb→lt _ _ e) in
          rw e (
            omega arith,
            omega (arith, clear, o.1, o.2, h),
            (
              inl clear,
              before_all addr size (pg_round_up r.end) rs (omega (arith, clear, past)) o.3,
            ),
          )
      | inr e ↦ rw e (
          after (not_below _ _ e) _ (
            free_from-Places lower size (pg_round_up r.end) rs h
              (omega (arith, (round_bounds r.end (omega (arith, o.2))).1, o.2)) o.3))
    ]
  where
    past : r.start ≤ pg_round_up r.end
    past = omega (arith, (round_bounds r.end (omega (arith, o.2))).0, o.1)

    below : (q : Region) → pg_round_up (add_addr addr size) < q.start → addr + size < q.start
    below q lt = omega (arith, h, k, lt)

    after :
        r.start ≤ pg_round_up (add_addr addr size)
        → (x : Option ℕ) → Places lower (pg_round_up r.end) size rs x
        → Places lower addr size (r ∷ rs) x
    after le none p = ((omega (arith, le, h, k), p.0), p.1)
    after le (some a) p = (omega (arith, p.0, past, o.0), p.1, (inr p.0, p.2))

-- For a size of at most 2^62, a stack above that address, and regions in order of their addresses
-- below it: a range that find_free_vaddr gives lies, with all of its `size` bytes, behind the end of
-- the first region, below the stack and clear of every region's pages. It gives none only if no gap
-- between two regions has a page of room beside the size, and between the last region and the
-- stack there is no more than twice the size and a page: its last test takes off the size twice.
pub find_free_vaddr-Places :
    (lower size : ℕ) (rs : List Region)
    → size ≤ 2 ^ 62
    → 2 ^ 62 ≤ lower
    → lower < 2 ^ 64
    → InOrder 0 rs
    → Places lower (first_end rs) size rs (find_free_vaddr lower size rs)
unfolding find_free_vaddr
find_free_vaddr-Places lower size [] h l m o =
    free_from-Places lower size 0 [] (h, l, m) (omega arith) tt
find_free_vaddr-Places lower size (r ∷ rs) h l m o = rw skips (
    after _ (
      free_from-Places lower size (pg_round_up r.end) rs (h, l, m)
        (omega (arith, (round_bounds r.end (omega (arith, o.2))).1, o.2)) o.3))
  where
    skips : free_from lower size r.end (r ∷ rs) ≡ free_from lower size (pg_round_up r.end) rs
    skips = unfold free_from in ground (arith, h, o.1, o.2)

    past : r.end ≤ pg_round_up r.end
    past = (round_bounds r.end (omega (arith, o.2))).0

    after :
        (x : Option ℕ)
        → Places lower (pg_round_up r.end) size rs x
        → Places lower r.end size (r ∷ rs) x
    after none p = ((omega (arith, o.1), p.0), p.1)
    after (some a) p = (omega (arith, p.0, past), p.1, (inr p.0, p.2))
