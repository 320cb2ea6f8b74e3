-- ===== src/Vpmap/Unmapping.antt =====
-- What vpmap_unmap clears, for a range within one page table.
use operating_system_osv.Base.{
  ℕ, zero, suc, ◌+◌, ◌-◌, ◌*◌, ◌/◌, ◌%◌, ◌^◌, ◌≤◌, ◌<◌, ◌≡◌, ap, ◌∙◌, List, [], ◌∷◌, ◌++◌, Bool,
  ltb, leb, ◌==◌, ◌&&◌, if◌then◌else◌, update, arith, ℕ_discrete,
}
use operating_system_osv.Vpmap.{
  Table, is_present, ppn, absent, dir, ptes, pg_size, pg_round_down, entry_idx, entry_at,
  clear_ptes, limit, in_table, unmap_pd, in_pd, unmap_pdpt, in_pdpt, unmap_pages, vpmap_unmap,
}

clear_ptes-get :
    (n x : ℕ) (s : ℕ → ℕ) (d : List ℕ) (i : ℕ)
    → (clear_ptes n x s d).0 i ≡ (if leb x i && ltb i (x + n) then 0 else s i)
unfolding clear_ptes
clear_ptes-get zero x s d i = ground arith
clear_ptes-get (suc n) x s d i =
    clear_ptes-get n (x + 1) (update s x 0) (if is_present (s x) then d ++ (ppn (s x) ∷ []) else d)
      i
    ∙ ground arith

limit-same : (x e : ℕ) → x ≡ e → limit x e - x ≡ 1
unfolding limit
limit-same x e h = ground arith

idx_lt : (u l : ℕ) → entry_idx u l < 512
unfolding entry_idx
idx_lt u l = omega arith

-- The entries are cleared that have index `k` above, and `x` or a later one in the page table.
at_update :
    (l u k j : ℕ) (s : ℕ → Table) (t : Table) (b : Bool)
    → entry_at l u t ≡ (if b then 0 else entry_at l u (s k))
    → entry_at l u (update s k t j) ≡ (if (k == j) && b then 0 else entry_at l u (s j))
at_update l u k j s t b e = elim (ℕ_discrete k j) [
  | yes q ↦
      let here : update s k t j ≡ t = ground arith in
      rw here (ground (arith, e, q, ap (λ (n : ℕ). entry_at l u (s n)) q))
  | no ne ↦ let there : update s k t j ≡ s j = ground arith in rw there (ground (arith, ne))
]

in_table-lem :
    (x end : ℕ) (t : Table) (d : List ℕ) (u : ℕ)
    → x < entry_idx end 0
    → entry_at 0 u (in_table x end t d).0 ≡ (if leb x (entry_idx u 0) then 0 else entry_at 0 u t)
unfolding in_table entry_at limit
in_table-lem x end absent d u h = ground arith
in_table-lem x end (dir s) d u h = ground arith
in_table-lem x end (ptes s) d u h =
    rw (clear_ptes-get (limit x (entry_idx end 0) - x) x s d (entry_idx u 0))
      (ground (arith, limit, idx_lt u 0))

in_pd-lem :
    (k start end : ℕ) (t : Table) (d : List ℕ) (u : ℕ)
    → k ≡ entry_idx end 1
    → entry_idx start 0 < entry_idx end 0
    → entry_at 1 u (in_pd k start end t d).0 ≡ (
        if (k == entry_idx u 1) && leb (entry_idx start 0) (entry_idx u 0)
        then 0
        else entry_at 1 u t)
unfolding in_pd unmap_pd entry_at
in_pd-lem k start end absent d u e h = ground arith
in_pd-lem k start end (ptes s) d u e h = ground arith
in_pd-lem k start end (dir s) d u e h = rw (limit-same k (entry_idx end 1) e) (
    at_update 0 u k (entry_idx u 1) s (in_table (entry_idx start 0) end (s k) d).0
      (leb (entry_idx start 0) (entry_idx u 0)) (in_table-lem (entry_idx start 0) end (s k) d u h))

-- The indices of an address on levels 1 to `l` are those of the start, and the one of the page
-- table is not below it.
unfoldable pub after : ℕ → ℕ → ℕ → Bool
after zero start u = leb (entry_idx start 0) (entry_idx u 0)
after (suc l) start u = (entry_idx start (suc l) == entry_idx u (suc l)) && after l start u

in_pdpt-lem :
    (k start end : ℕ) (t : Table) (d : List ℕ) (u : ℕ)
    → k ≡ entry_idx end 2
    → entry_idx start 1 ≡ entry_idx end 1
    → entry_idx start 0 < entry_idx end 0
    → entry_at 2 u (in_pdpt k start end t d).0
      ≡ (if (k == entry_idx u 2) && after 1 start u then 0 else entry_at 2 u t)
unfolding in_pdpt unmap_pdpt entry_at after
in_pdpt-lem k start end absent d u e e1 h = ground arith
in_pdpt-lem k start end (ptes s) d u e e1 h = ground arith
in_pdpt-lem k start end (dir s) d u e e1 h = rw (limit-same k (entry_idx end 2) e) (
    at_update 1 u k (entry_idx u 2) s (in_pd (entry_idx start 1) start end (s k) d).0
      (after 1 start u) (in_pd-lem (entry_idx start 1) start end (s k) d u e1 h))

unmap_pages-lem :
    (start end : ℕ) (s : ℕ → Table) (u : ℕ)
    → entry_idx start 3 ≡ entry_idx (end - 1) 3
    → entry_idx start 2 ≡ entry_idx end 2
    → entry_idx start 1 ≡ entry_idx end 1
    → entry_idx start 0 < entry_idx end 0
    → entry_at 3 u (
        dir
          (unmap_pages
            (entry_idx (end - 1) 3 + 1 - entry_idx start 3)
            (entry_idx start 3)
            (entry_idx start 2)
            start
            end
            s
            []).0)
      ≡ (if after 3 start u then 0 else entry_at 3 u (dir s))
unfolding unmap_pages entry_at after
unmap_pages-lem start end s u e3 e2 e1 h =
    let one : entry_idx (end - 1) 3 + 1 - entry_idx start 3 ≡ 1 = omega arith in
    rw one (
      at_update 2 u (entry_idx start 3) (entry_idx u 3) s
        (in_pdpt (entry_idx start 2) start end (s (entry_idx start 3)) []).0 (after 2 start u)
        (in_pdpt-lem (entry_idx start 2) start end (s (entry_idx start 3)) [] u e2 e1 h))

after-page :
    (v u : ℕ)
    → v < 2 ^ 48
    → u < 2 ^ 48
    → v % 4096 ≡ 0
    → after 3 v u ≡ ((v / 2 ^ 21 == u / 2 ^ 21) && leb v u)
unfolding after entry_idx
after-page v u h k a = ground arith

pub rounded : (v : ℕ) → (pg_round_down v ≤ v) × (pg_round_down v % 4096 ≡ 0)
unfolding pg_round_down
rounded v = (omega arith, omega arith)

pub pg_round_down-aligned : (a : ℕ) → a % 4096 ≡ 0 → pg_round_down a ≡ a
unfolding pg_round_down
pg_round_down-aligned a h = omega arith

pub pg_round_down-high :
    (a : ℕ) → (pg_round_down a / 2 ^ 48 ≡ a / 2 ^ 48) × (pg_round_down a % 2 ^ 48 ≤ a % 2 ^ 48)
unfolding pg_round_down
pg_round_down-high a = (omega arith, omega arith)

in_one_table :
    (a n : ℕ)
    → a % 4096 ≡ 0
    → 0 < n
    → a % 2 ^ 21 + n * pg_size < 2 ^ 21
    → (entry_idx a 3 ≡ entry_idx (a + n * pg_size - 1) 3)
      × (entry_idx a 2 ≡ entry_idx (a + n * pg_size) 2)
      × (entry_idx a 1 ≡ entry_idx (a + n * pg_size) 1)
      × (entry_idx a 0 < entry_idx (a + n * pg_size) 0)
unfolding entry_idx
in_one_table a n aligned pos within = (omega arith, omega arith, omega arith, omega arith)

-- vpmap_unmap of a nonempty range below 2^48, within one page table and without its last page, clears
-- every entry of that table from the start of the range on, also those of the pages behind the
-- range, and no entry before the range or of another page table.
pub vpmap_unmap_overruns :
    (v n : ℕ) (s : ℕ → Table) (u : ℕ)
    → v < 2 ^ 48
    → u < 2 ^ 48
    → 0 < n
    → pg_round_down v % 2 ^ 21 + n * pg_size < 2 ^ 21
    → entry_at 3 u (dir (vpmap_unmap v n s).0) ≡ (
        if (pg_round_down v / 2 ^ 21 == u / 2 ^ 21) && leb (pg_round_down v) u
        then 0
        else entry_at 3 u (dir s))
unfolding vpmap_unmap
vpmap_unmap_overruns v zero s u hv hu pos within = absurd (omega arith)
vpmap_unmap_overruns v (suc n) s u hv hu pos within =
    let start = pg_round_down v in
    let end = start + suc n * pg_size in
    let (low, aligned) = rounded v in
    let (e3, e2, e1, h) = in_one_table start (suc n) aligned pos within in
    unmap_pages-lem start end s u e3 e2 e1 h
    ∙ ap (λ (b : Bool). if b then 0 else entry_at 3 u (dir s))
        (after-page start u (omega arith) hu aligned)
