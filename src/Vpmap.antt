-- ===== src/Vpmap.antt =====
-- The page tables of arch/x86_64/kernel/mm/vpmap.c, as trees of four levels of tables: a table that
-- an entry points to is a subtree. Of the physical allocator a call has a budget, the number of
-- pages that it gives in that call before it fails. Of an address the tables see
-- the bits below 48.
pub mod Entries
pub mod Budget
pub mod Pages
pub mod Mapping
pub mod Perms
pub mod Unmapping
mod Tests
use operating_system_osv.Base.{
  ℕ, zero, suc, ◌+◌, ◌-◌, ◌*◌, ◌/◌, ◌%◌, ◌^◌, Option, none, some, List, [], ◌∷◌, ◌++◌, Bool, true,
  false, ltb, ◌==◌, if◌then◌else◌, update,
}

-- What an entry of a directory leads to: nothing, if PTE_P is clear, the next directory, or a page
-- table of words.
pub data Table : Type 0 where
  absent : Table
  dir : (ℕ → Table) → Table
  ptes : (ℕ → ℕ) → Table

abbrev pub pg_size : ℕ
pg_size = 4096

pub pg_round_down : ℕ → ℕ
pg_round_down a = a / pg_size * pg_size

-- PTX, PDX, PDPTX and PML4X: ENTRY_IDX with PG_SHIFT and nine bits for each level.
pub entry_idx : ℕ → ℕ → ℕ
entry_idx v level = v / (4096 * 512 ^ level) % 512

-- PTE_P, PTE_W and PTE_U; PTE_D is 64 and PTE_A 32.
abbrev pub is_present : ℕ → Bool
is_present e = e % 2 == 1

-- PPN and ENTRY_ADDR: bits 12 to 50.
pub ppn : ℕ → ℕ
ppn e = e / 4096 % 2 ^ 39 * 4096

pub data MemPerm : Type 0 where
  memperm_r memperm_rw memperm_ur memperm_urw : MemPerm

pub memperm_to_pteperm : MemPerm → ℕ
memperm_to_pteperm memperm_r = 0
memperm_to_pteperm memperm_rw = 2
memperm_to_pteperm memperm_ur = 4
memperm_to_pteperm memperm_urw = 6

-- A table of zeros, on the level that it is made for.
abbrev pub new_table : ℕ → Table
new_table zero = ptes (λ _. 0)
new_table (suc l) = dir (λ _. absent)

-- find_pte(pml4, vaddr, 0) from a table of the level, and the word there; 0 where find_pte is NULL.
pub entry_at : ℕ → ℕ → Table → ℕ
entry_at zero v absent = 0
entry_at zero v (dir s) = 0
entry_at zero v (ptes s) = s (entry_idx v 0)
entry_at (suc l) v absent = 0
entry_at (suc l) v (dir s) = entry_at l v (s (entry_idx v (suc l)))
entry_at (suc l) v (ptes s) = 0

-- The budget left and the table that an entry leads to, made if it is absent.
pub open_table : ℕ → ℕ → Table → Option (ℕ × Table)
open_table l zero absent = none
open_table l (suc b) absent = some (b, new_table l)
open_table l b (dir s) = some (b, dir s)
open_table l b (ptes s) = some (b, ptes s)

-- find_pte(pml4, vaddr, 1) and the word stored there; no budget is left over where a page is not to
-- be had.
pub store_pte : ℕ → ℕ → ℕ → ℕ → Table → Option ℕ × Table
unfolding open_table
store_pte zero v w b absent = (none, absent)
store_pte zero v w b (dir s) = (none, dir s)
store_pte zero v w b (ptes s) = (some b, ptes (update s (entry_idx v 0) w))
store_pte (suc l) v w b absent = (none, absent)
store_pte (suc l) v w b (ptes s) = (none, ptes s)
store_pte (suc l) v w b (dir s) = elim (open_table l b (s (entry_idx v (suc l)))) [
  | none ↦ (none, dir s)
  | some (b', t) ↦
      let (r, t') = store_pte l v w b' t in (r, dir (update s (entry_idx v (suc l)) t'))
]

stored : Option ℕ × Table → (ℕ → Table → Option ℕ × Table) → Option ℕ × Table
stored (none, t) k = (none, t)
stored (some b, t) k = k b t

-- The loop of map_pages, on the pages left. `none` is ERR_VPMAP_MAP.
pub map_pages : ℕ → ℕ → ℕ → ℕ → ℕ → Table → Option ℕ × Table
unfolding store_pte ppn stored
map_pages zero v p perm b t = (some b, t)
map_pages (suc n) v p perm b t =
    stored (store_pte 3 v (ppn p + 1 + perm) b t)
      (λ b' t'. map_pages n (v + pg_size) (p + pg_size) perm b' t')

pub vpmap_map : ℕ → ℕ → ℕ → MemPerm → ℕ → Table → Option ℕ × Table
unfolding map_pages pg_round_down memperm_to_pteperm
vpmap_map v p n perm b t =
    map_pages n (pg_round_down v) (pg_round_down p) (memperm_to_pteperm perm) b t

-- The body of the loop of vpmap_set_perm: find_pte(pml4, vaddr, 0), which takes no page.
pub set_perm_at : ℕ → ℕ → Table → Table
unfolding store_pte entry_at ppn
set_perm_at v perm t = (store_pte 3 v (ppn (entry_at 3 v t) + entry_at 3 v t % 2 + perm) 0 t).1

pub set_perms : ℕ → ℕ → ℕ → Table → Table
unfolding set_perm_at
set_perms zero v perm t = t
set_perms (suc n) v perm t = set_perms n (v + pg_size) perm (set_perm_at v perm t)

pub vpmap_set_perm : ℕ → ℕ → MemPerm → Table → Table
unfolding set_perms pg_round_down memperm_to_pteperm
vpmap_set_perm v n perm t = set_perms n (pg_round_down v) (memperm_to_pteperm perm) t

-- `none` is ERR_VPMAP_NOTPRESENT.
pub vpmap_lookup_vaddr : ℕ → Table → Option ℕ
unfolding entry_at ppn
vpmap_lookup_vaddr v t =
    if is_present (entry_at 3 v t) then some (ppn (entry_at 3 v t) + v % pg_size) else none

-- The loop over clear_pte in unmap_pd, on the entries left; with the pages whose references are
-- dropped.
pub clear_ptes : ℕ → ℕ → (ℕ → ℕ) → List ℕ → (ℕ → ℕ) × List ℕ
unfolding ppn
clear_ptes zero ptx s dropped = (s, dropped)
clear_ptes (suc n) ptx s dropped =
    clear_ptes n (ptx + 1) (update s ptx 0)
      (if is_present (s ptx) then dropped ++ (ppn (s ptx) ∷ []) else dropped)

-- `limit` of the loops: the entries from `x` on, where the end of the range has the index `e`.
pub limit : ℕ → ℕ → ℕ
limit x e = if ltb x e then 512 else e + 1

in_table : ℕ → ℕ → Table → List ℕ → Table × List ℕ
unfolding clear_ptes limit
in_table ptx end absent dropped = (absent, dropped)
in_table ptx end (dir s) dropped = (dir s, dropped)
in_table ptx end (ptes s) dropped =
    let (s', dropped') = clear_ptes (limit ptx (entry_idx end 0) - ptx) ptx s dropped in
    (ptes s', dropped')

-- The loops of unmap_pd, on the entries left: after the first round `ptx` is 0.
pub unmap_pd : ℕ → ℕ → ℕ → ℕ → (ℕ → Table) → List ℕ → (ℕ → Table) × List ℕ
unfolding in_table
unmap_pd zero pdx ptx end s dropped = (s, dropped)
unmap_pd (suc n) pdx ptx end s dropped =
    let (t, dropped') = in_table ptx end (s pdx) dropped in
    unmap_pd n (pdx + 1) 0 end (update s pdx t) dropped'

in_pd : ℕ → ℕ → ℕ → Table → List ℕ → Table × List ℕ
unfolding unmap_pd limit
in_pd pdx start end absent dropped = (absent, dropped)
in_pd pdx start end (ptes s) dropped = (ptes s, dropped)
in_pd pdx start end (dir s) dropped =
    let (s', dropped') =
      unmap_pd (limit pdx (entry_idx end 1) - pdx) pdx (entry_idx start 0) end s dropped in
    (dir s', dropped')

pub unmap_pdpt : ℕ → ℕ → ℕ → ℕ → ℕ → (ℕ → Table) → List ℕ → (ℕ → Table) × List ℕ
unfolding in_pd
unmap_pdpt zero pdptx pdx start end s dropped = (s, dropped)
unmap_pdpt (suc n) pdptx pdx start end s dropped =
    let (t, dropped') = in_pd pdx start end (s pdptx) dropped in
    unmap_pdpt n (pdptx + 1) 0 start end (update s pdptx t) dropped'

in_pdpt : ℕ → ℕ → ℕ → Table → List ℕ → Table × List ℕ
unfolding unmap_pdpt limit
in_pdpt pdptx start end absent dropped = (absent, dropped)
in_pdpt pdptx start end (ptes s) dropped = (ptes s, dropped)
in_pdpt pdptx start end (dir s) dropped =
    let (s', dropped') =
      unmap_pdpt (limit pdptx (entry_idx end 2) - pdptx) pdptx (entry_idx start 1) start end s
        dropped in
    (dir s', dropped')

-- The loop of unmap_pages, with free_imm clear.
pub unmap_pages : ℕ → ℕ → ℕ → ℕ → ℕ → (ℕ → Table) → List ℕ → (ℕ → Table) × List ℕ
unfolding in_pdpt
unmap_pages zero pml4x pdptx start end s dropped = (s, dropped)
unmap_pages (suc n) pml4x pdptx start end s dropped =
    let (t, dropped') = in_pdpt pdptx start end (s pml4x) dropped in
    unmap_pages n (pml4x + 1) 0 start end (update s pml4x t) dropped'

-- vpmap_unmap of a map with a pml4 table, for ranges that end below 2^48, where the kasserts hold;
-- beside the table, the pages whose references are dropped.
pub vpmap_unmap : ℕ → ℕ → (ℕ → Table) → (ℕ → Table) × List ℕ
unfolding unmap_pages pg_round_down
vpmap_unmap v zero s = (s, [])
vpmap_unmap v (suc n) s =
    let start = pg_round_down v in
    let end = start + suc n * pg_size in
    unmap_pages (entry_idx (end - 1) 3 + 1 - entry_idx start 3) (entry_idx start 3)
      (entry_idx start 2) start end s []
