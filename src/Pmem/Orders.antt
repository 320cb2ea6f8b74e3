-- ===== src/Pmem/Orders.antt =====
-- get_min_page_order, get_max_page_order and freeblocks_insert_range of kernel/mm/pmem.c: block
-- sizes, and the tiling of a range of pages by aligned power-of-two blocks.
use operating_system_osv.Base.{
  ℕ, zero, suc, ◌+◌, ◌-◌, ◌%◌, ◌^◌, ◌≤◌, ◌<◌, ◌≡◌, refl, List, [], ◌∷◌, Option, none, some, false,
  arith, ltb, leb, ◌==◌, ◌&&◌, if◌then◌else◌, Bool-cases, inl, inr, dec_lt, ℕ_discrete, ◌⊎◌, subst,
  pow_pos,
}

abbrev pub max_order : ℕ
max_order = 10

-- `for (order = 0; order <= MAX_ORDER; order++) if (1 << order >= n) return order;` on the rounds
-- left. `none` is the panic after the loop.
min_order_from : ℕ → ℕ → ℕ → Option ℕ
min_order_from zero order n = none
min_order_from (suc rounds) order n =
    if leb n (2 ^ order) then some order else min_order_from rounds (order + 1) n

pub get_min_page_order : ℕ → Option ℕ
unfolding min_order_from
get_min_page_order n = min_order_from (max_order + 1) 0 n

-- `for (order = MAX_ORDER; order > 0; order--) if (…) return order; return 0;`, in page indices.
pub max_order_from : ℕ → ℕ → ℕ → ℕ
max_order_from zero start end = 0
max_order_from (suc k) start end =
    if start % 2 ^ suc k == 0 && leb (start + 2 ^ suc k) end
    then suc k
    else max_order_from k start end

pub get_max_page_order : ℕ → ℕ → ℕ
unfolding max_order_from
get_max_page_order start end = max_order_from max_order start end

-- The blocks that freeblocks_insert_range inserts, as (index, order), on fuel: one page at least
-- is covered in each round.
pub insert_range : ℕ → ℕ → ℕ → List (ℕ × ℕ)
insert_range zero start end = []
insert_range (suc fuel) start end =
    let order = get_max_page_order start end in
    let rest = insert_range fuel (start + 2 ^ order) end in
    if ltb start end then (start, order) ∷ rest else []

-- The least order whose block holds `n` pages, or none if `n` exceeds the largest block.
abbrev pub IsMinOrder : ℕ → Option ℕ → Type 0
IsMinOrder n none = 1024 < n
IsMinOrder n (some o) = (o ≤ max_order) × (n ≤ 2 ^ o) × ((o ≡ 0) ⊎ (2 ^ (o - 1) < n))

min_order_from-IsMinOrder :
    (rounds order n : ℕ)
    → rounds + order ≡ 11
    → (order ≡ 0) ⊎ (2 ^ (order - 1) < n)
    → IsMinOrder n (min_order_from rounds order n)
unfolding min_order_from
min_order_from-IsMinOrder zero order n e h =
    let last : order ≡ 11 = omega arith in
    let h' : (◌≡◌ {A = ℕ} 11 0) ⊎ (1024 < n) =
      subst (λ (k : ℕ). (k ≡ 0) ⊎ (2 ^ (k - 1) < n)) last h in
    omega arith
min_order_from-IsMinOrder (suc rounds) order n e h = elim (Bool-cases (leb n (2 ^ order))) [
  | inl fits ↦ rw fits (omega arith, ground arith, h)
  | inr more ↦ rw more (
      min_order_from-IsMinOrder rounds (order + 1) n (omega arith)
        (inr (subst (λ (k : ℕ). 2 ^ k < n) (omega arith) (larger more))))
]
  where
    larger : leb n (2 ^ order) ≡ false → 2 ^ order < n
    larger m = ground arith

-- get_min_page_order gives the least order whose block holds `n` pages, and reaches its panic
-- exactly for more than 1024 pages.
pub get_min_page_order_lem : (n : ℕ) → IsMinOrder n (get_min_page_order n)
unfolding get_min_page_order
get_min_page_order_lem n = min_order_from-IsMinOrder 11 0 n refl (inl refl)

-- A block of order `o` at `i` is aligned and ends by `end`.
abbrev pub Fits : ℕ → ℕ → ℕ → Type 0
Fits start end o = (start % 2 ^ o ≡ 0) × (start + 2 ^ o ≤ end)

max_order_from-Fits :
    (k start end : ℕ)
    → start < end
    → Fits start end (max_order_from k start end) × (max_order_from k start end ≤ k)
unfolding max_order_from
max_order_from-Fits zero start end h = ((omega arith, omega arith), omega arith)
max_order_from-Fits (suc k) start end h = ground (arith, max_order_from-Fits k start end h)

max_order_from-max : (k start end o : ℕ) → o ≤ k → Fits start end o → o ≤ max_order_from k start end
unfolding max_order_from
max_order_from-max zero start end o h f = h
max_order_from-max (suc k) start end o h f = elim (ℕ_discrete o (suc k)) [
  | yes e ↦ let f' : Fits start end (suc k) = subst (Fits start end) e f in ground arith
  | no ne ↦ ground (arith, max_order_from-max k start end o)
]

-- Of the orders up to MAX_ORDER, get_max_page_order gives the largest at which a block can start
-- at `start` and not pass `end`: any such order `o` is at most the one given.
pub get_max_page_order_lem :
    (start end o : ℕ)
    → start < end
    → o ≤ max_order
    → Fits start end o
    → Fits start end (get_max_page_order start end)
      × (get_max_page_order start end ≤ max_order)
      × (o ≤ get_max_page_order start end)
unfolding get_max_page_order
get_max_page_order_lem start end o h k f =
    let (g, m) = max_order_from-Fits max_order start end h in
    (g, m, max_order_from-max max_order start end o k f)

-- The blocks lie one after the other from `start` to `end`, each aligned to its size.
abbrev pub Tiles : ℕ → ℕ → List (ℕ × ℕ) → Type 0
Tiles start end [] = start ≡ end
Tiles start end ((i, o) ∷ bs) =
    (i ≡ start) × (i % 2 ^ o ≡ 0) × (o ≤ max_order) × Tiles (start + 2 ^ o) end bs

-- freeblocks_insert_range tiles exactly the pages from `start` to `end`: with fuel for each page
-- its loop ends, and its blocks are aligned, adjacent, and of order MAX_ORDER at most.
pub insert_range-Tiles :
    (fuel start end : ℕ)
    → start ≤ end
    → end < start + fuel
    → Tiles start end (insert_range fuel start end)
unfolding insert_range
insert_range-Tiles zero start end h k = absurd (omega arith)
insert_range-Tiles (suc fuel) start end h k = elim (dec_lt start end) [
  | yes lt ↦
      let (f, m, _) =
        get_max_page_order_lem start end 0 lt (omega arith) (omega arith, omega arith) in
      let rest =
        insert_range-Tiles fuel (start + 2 ^ get_max_page_order start end) end f.1
          (omega (arith, pow_pos (get_max_page_order start end))) in
      ground arith
  | no ge ↦ ground arith
]
