-- ===== src/Vpmap/Mapping.antt =====
-- vpmap_map and the translations of vpmap_lookup_vaddr after it.
use operating_system_osv.Base.{
  ℕ, zero, suc, ◌+◌, ◌*◌, ◌/◌, ◌%◌, ◌^◌, ◌≤◌, ◌<◌, ◌≡◌, sym, ◌∙◌, Option, none, some, arith,
}
use operating_system_osv.Vpmap.{
  Table, pg_size, pg_round_down, MemPerm, memperm_to_pteperm, ppn, vpmap_lookup_vaddr, store_pte,
  stored, map_pages, vpmap_map,
}
use operating_system_osv.Vpmap.Entries.{IsTable, Stored, store_pte-Stored}
use operating_system_osv.Vpmap.Budget.{missing, missing-le, Spends, store_pte-Spends}
use operating_system_osv.Vpmap.Unmapping.{rounded}
use operating_system_osv.Vpmap.Pages.{with_pages, one_page, with_pages-suc}

-- A budget of `b` that the pages up to the one with number `k` do not have their tables from: what
-- is missing for the first page, and three tables for each page else.
abbrev pub Short : ℕ → ℕ → ℕ → Table → Type 0
Short zero v b t = b < missing 3 v t
Short (suc k) v b t = b < 3 * (k + 2)

-- The tables for the first page, if there is one.
abbrev pub Enough : ℕ → ℕ → ℕ → Table → Type 0
Enough zero v b t = Unit
Enough (suc n) v b t = missing 3 v t ≤ b

-- What mapping `n` pages with a budget of `b` has done to the translations: all the pages are
-- mapped, or those before the one that the budget had no tables for.
abbrev pub Maps : ℕ → ℕ → ℕ → ℕ → Table → Option ℕ × Table → Type 0
Maps v p n b t (none, t') =
    IsTable 3 t'
    × ((k : ℕ) × (k < n)
        × Short k v b t
        × ((u : ℕ) → v / 2 ^ 48 ≡ u / 2 ^ 48 → vpmap_lookup_vaddr u t' ≡ with_pages v p k t u))
Maps v p n b t (some left, t') =
    IsTable 3 t'
    × ((u : ℕ) → v / 2 ^ 48 ≡ u / 2 ^ 48 → vpmap_lookup_vaddr u t' ≡ with_pages v p n t u)
    × (left ≤ b)
    × Enough n v b t

pub with_pages-zero : (v p u : ℕ) (t : Table) → with_pages v p 0 t u ≡ vpmap_lookup_vaddr u t
unfolding with_pages
with_pages-zero v p u t = ground arith

Short-suc :
    (k v b b1 : ℕ) (t t1 : Table)
    → b ≤ b1 + 3
    → IsTable 3 t1
    → Short k (v + pg_size) b1 t1
    → Short (suc k) v b t
Short-suc zero v b b1 t t1 le h s = omega (arith, missing-le 3 (v + pg_size) t1 h, s)
Short-suc (suc k) v b b1 t t1 le h s = omega (arith, s)

Maps-suc :
    (v p n b b1 : ℕ) (t t1 : Table) (r : Option ℕ × Table)
    → v % 2 ^ 48 + suc n * pg_size < 2 ^ 48
    → IsTable 3 t
    → IsTable 3 t1
    → b1 + missing 3 v t ≡ b
    → ((u : ℕ) → v / 2 ^ 48 ≡ u / 2 ^ 48 → vpmap_lookup_vaddr u t1 ≡ with_pages v p 1 t u)
    → Maps (v + pg_size) (p + pg_size) n b1 t1 r
    → Maps v p (suc n) b t r
Maps-suc v p n b b1 t t1 (none, t') w i i1 e one (h, (k, lt, short, f)) = (
  h,
  (
    suc k,
    omega arith,
    Short-suc k v b b1 t t1 (omega (arith, missing-le 3 v t i)) i1 short,
    λ u same. f u (omega (arith, same, w)) ∙ with_pages-suc v p k u t t1 (one u same),
  ),
)
Maps-suc v p n b b1 t t1 (some left, t') w i i1 e one (h, f, le, _) = (
  h,
  λ u same. f u (omega (arith, same, w)) ∙ with_pages-suc v p n u t t1 (one u same),
  omega arith,
  omega arith,
)

-- The rest of the pages, after the first one is stored.
rest_of_pages :
    (n v p : ℕ) (perm : MemPerm) (b : ℕ) (t : Table) (r : Option ℕ × Table)
    → IsTable 3 t
    → v % 4096 ≡ 0
    → p % 4096 ≡ 0
    → v % 2 ^ 48 + suc n * pg_size < 2 ^ 48
    → p + suc n * pg_size ≤ 2 ^ 51
    → ((b' : ℕ) (t' : Table)
        → IsTable 3 t'
        → Maps
            (v + pg_size)
            (p + pg_size)
            n
            b'
            t'
            (map_pages n (v + pg_size) (p + pg_size) (memperm_to_pteperm perm) b' t'))
    → Stored 3 v (ppn p + 1 + memperm_to_pteperm perm) t r
    → Spends b (missing 3 v t) r.0
    → Maps v p (suc n) b t (
        stored r (λ b' t'. map_pages n (v + pg_size) (p + pg_size) (memperm_to_pteperm perm) b' t'))
unfolding stored vpmap_lookup_vaddr
rest_of_pages n v p perm b t (none, t') i hv hp bv bp ih (h, f, _) spent =
    (h, (0, omega arith, spent, λ u _. rw (f u) (sym (with_pages-zero v p u t))))
rest_of_pages n v p perm b t (some b', t') i hv hp bv bp ih (h, f) spent =
    Maps-suc v p n b b' t t'
      (map_pages n (v + pg_size) (p + pg_size) (memperm_to_pteperm perm) b' t') bv i h spent
      (λ u same. one_page v p u perm t t' hv hp same (omega arith) (f u)) (ih b' t' h)

pub map_pages-Maps :
    (n v p : ℕ) (perm : MemPerm) (b : ℕ) (t : Table)
    → IsTable 3 t
    → v % 4096 ≡ 0
    → p % 4096 ≡ 0
    → v % 2 ^ 48 + n * pg_size < 2 ^ 48
    → p + n * pg_size ≤ 2 ^ 51
    → Maps v p n b t (map_pages n v p (memperm_to_pteperm perm) b t)
unfolding map_pages
map_pages-Maps zero v p perm b t h hv hp bv bp =
    (h, λ u _. sym (with_pages-zero v p u t), omega arith, tt)
map_pages-Maps (suc n) v p perm b t h hv hp bv bp =
    rest_of_pages n v p perm b t (store_pte 3 v (ppn p + 1 + memperm_to_pteperm perm) b t) h hv hp
      bv bp
      (λ b' t' h'.
        map_pages-Maps n (v + pg_size) (p + pg_size) perm b' t' h' (omega arith) (omega arith)
          (omega arith) (omega arith))
      (store_pte-Stored 3 v (ppn p + 1 + memperm_to_pteperm perm) b t h)
      (store_pte-Spends 3 v (ppn p + 1 + memperm_to_pteperm perm) b t h)

-- After vpmap_map the addresses of the mapped pages translate to the physical pages in order, each
-- with its offset, and every other address with the same bits from 48 on translates as before. It
-- fails at the first page just if fewer tables are to be had than are missing on the way to it, and
-- at a later one only if fewer than three for each page up to and with that one are; then the pages
-- before it stay mapped and nothing else has changed. The root is a table of the top level, the
-- pages have the same bits from 48 on and leave out the last page with them, and the physical pages
-- lie below 2^51.
pub vpmap_map-Maps :
    (v p n : ℕ) (perm : MemPerm) (b : ℕ) (t : Table)
    → IsTable 3 t
    → pg_round_down v % 2 ^ 48 + n * pg_size < 2 ^ 48
    → pg_round_down p + n * pg_size ≤ 2 ^ 51
    → Maps (pg_round_down v) (pg_round_down p) n b t (vpmap_map v p n perm b t)
unfolding vpmap_map
vpmap_map-Maps v p n perm b t h bv bp =
    map_pages-Maps n (pg_round_down v) (pg_round_down p) perm b t h (rounded v).1 (rounded p).1 bv
      bp

pub Maps-IsTable :
    (v p n b : ℕ) (t : Table) (r : Option ℕ × Table) → Maps v p n b t r → IsTable 3 r.1
Maps-IsTable v p n b t (none, t') (h, _) = h
Maps-IsTable v p n b t (some left, t') (h, _, _, _) = h
