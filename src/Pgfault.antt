-- ===== src/Pgfault.antt =====
-- handle_page_fault of kernel/pgfault.c: a fault in the user's stack or heap gets a page of zeros,
-- any other ends the process or is a panic. `page` is the answer of pmem_alloc, the number of a
-- page, and `b` the budget of vpmap_map for tables; interrupts and the count of faults are left out.
mod Tests
use operating_system_osv.Base.{
  ℕ, zero, suc, ◌+◌, ◌-◌, ◌*◌, ◌/◌, ◌%◌, ◌^◌, ◌≤◌, ◌<◌, ◌≡◌, refl, sym, ap, subst, ◌∙◌, ◌⊎◌, inl,
  inr, Option, none, some, List, [], ◌∷◌, Bool, true, false, ltb, leb, ◌&&◌, ◌||◌, if◌then◌else◌,
  arith,
}
use operating_system_osv.Vpmap.{
  Table, pg_size, pg_round_down, memperm_urw, vpmap_map, vpmap_lookup_vaddr,
}
use operating_system_osv.Vpmap.Entries.{IsTable}
use operating_system_osv.Vpmap.Budget.{missing}
use operating_system_osv.Vpmap.Pages.{with_pages}
use operating_system_osv.Vpmap.Mapping.{Maps, vpmap_map-Maps, with_pages-zero}
use operating_system_osv.Vpmap.Unmapping.{rounded, pg_round_down-aligned, pg_round_down-high}

abbrev pub ustack_upperbound : ℕ
ustack_upperbound = 18446743523953733632

abbrev ustack_pages : ℕ
ustack_pages = 10

-- What the handler leaves: physical memory and the tables, and where the process has to exit, the
-- pages that are freed again.
pub data Fault : Type 0 where
  resumed : (ℕ → ℕ) → Table → Fault
  exits : List ℕ → (ℕ → ℕ) → Table → Fault
  panicked : Fault

-- memset of a page to 0.
zero_page : ℕ → (ℕ → ℕ) → ℕ → ℕ
zero_page paddr mem a = if leb paddr a && ltb a (paddr + pg_size) then 0 else mem a

mapped : ℕ → (ℕ → ℕ) → Option ℕ × Table → Fault
mapped n mem (none, t) = exits (n ∷ []) mem t
mapped n mem (some b, t) = resumed mem t

give_page : ℕ → Option ℕ → ℕ → (ℕ → ℕ) → Table → Fault
unfolding mapped zero_page
give_page addr none b mem t = exits [] mem t
give_page addr (some n) b mem t =
    mapped n (zero_page (n * pg_size) mem)
      (vpmap_map (pg_round_down addr) (n * pg_size) 1 memperm_urw b t)

-- The two tests of the handler: the stack, and the heap from `lo` to `hi`.
pub in_region : ℕ → ℕ → ℕ → Bool
in_region lo hi addr =
    (leb (ustack_upperbound - pg_size * ustack_pages) addr && ltb addr ustack_upperbound)
    || (leb lo addr && ltb addr hi)

pub handle_page_fault : ℕ → Bool → ℕ → ℕ → Option ℕ → ℕ → (ℕ → ℕ) → Table → Fault
unfolding give_page in_region
handle_page_fault addr user lo hi page b mem t =
    if user && in_region lo hi addr
    then give_page addr page b mem t
    else if user
    then exits [] mem t
    else panicked

pub pages : Option ℕ → List ℕ
pages none = []
pages (some n) = n ∷ []

-- What a fault at `addr` in a region has done, by the outcome.
abbrev pub Given : ℕ → Option ℕ → ℕ → (ℕ → ℕ) → Table → Fault → Type 0
Given addr page b mem t (resumed mem' t') =
    ((n : ℕ) × (page ≡ some n)
      × ((u : ℕ)
          → addr / 2 ^ 48 ≡ u / 2 ^ 48
          → vpmap_lookup_vaddr u t' ≡ with_pages (pg_round_down addr) (n * pg_size) 1 t u)
      × (missing 3 (pg_round_down addr) t ≤ b)
      × ((a : ℕ)
          → mem' a ≡ (if leb (n * pg_size) a && ltb a (n * pg_size + pg_size) then 0 else mem a)))
Given addr page b mem t (exits freed mem' t') =
    (freed ≡ pages page)
    × ((page ≡ none) ⊎ (b < missing 3 (pg_round_down addr) t))
    × ((u : ℕ) → addr / 2 ^ 48 ≡ u / 2 ^ 48 → vpmap_lookup_vaddr u t' ≡ vpmap_lookup_vaddr u t)
Given addr page b mem t panicked = ⊥

pub PagesBelow : ℕ → Option ℕ → Type 0
PagesBelow bound none = Unit
PagesBelow bound (some n) = n < bound

mapped-Given :
    (addr n b : ℕ) (mem : ℕ → ℕ) (t : Table) (r : Option ℕ × Table)
    → Maps (pg_round_down addr) (n * pg_size) 1 b t r
    → Given addr (some n) b mem t (mapped n (zero_page (n * pg_size) mem) r)
unfolding mapped zero_page pages
mapped-Given addr n b mem t (none, t') (h, (zero, lt, short, f)) = (
  refl,
  inr short,
  λ u same.
      f u ((pg_round_down-high addr).0 ∙ same)
      ∙ with_pages-zero (pg_round_down addr) (n * pg_size) u t,
)
mapped-Given addr n b mem t (none, t') (h, (suc k, lt, _, _)) = absurd (omega (arith, lt))
mapped-Given addr n b mem t (some left, t') (h, f, _, enough) =
    (n, refl, λ u same. f u ((pg_round_down-high addr).0 ∙ same), enough, λ a. refl)

give_page-Given :
    (addr : ℕ) (page : Option ℕ) (b : ℕ) (mem : ℕ → ℕ) (t : Table)
    → IsTable 3 t
    → addr % 2 ^ 48 + pg_size < 2 ^ 48
    → PagesBelow (2 ^ 39) page
    → Given addr page b mem t (give_page addr page b mem t)
unfolding give_page pages PagesBelow
give_page-Given addr none b mem t h lt below = (refl, inl refl, λ u _. refl)
give_page-Given addr (some n) b mem t h lt below =
    mapped-Given addr n b mem t (vpmap_map (pg_round_down addr) (n * pg_size) 1 memperm_urw b t) (
      subst
        (λ a.
          Maps (pg_round_down addr) a 1 b t
            (vpmap_map (pg_round_down addr) (n * pg_size) 1 memperm_urw b t))
        page_aligned
        (subst
          (λ a.
            Maps a (pg_round_down (n * pg_size)) 1 b t
              (vpmap_map (pg_round_down addr) (n * pg_size) 1 memperm_urw b t))
          start_aligned
          (vpmap_map-Maps (pg_round_down addr) (n * pg_size) 1 memperm_urw b t h
            (rw start_aligned (omega (arith, (pg_round_down-high addr).1)))
            (rw page_aligned (omega arith)))))
  where
    page_aligned : pg_round_down (n * pg_size) ≡ n * pg_size
    page_aligned = pg_round_down-aligned (n * pg_size) (omega arith)

    start_aligned : pg_round_down (pg_round_down addr) ≡ pg_round_down addr
    start_aligned = pg_round_down-aligned (pg_round_down addr) (rounded addr).1

-- A user fault in the stack or the heap ends in one of two ways. With a page from pmem_alloc and as
-- many more as tables are missing for the address, the page holds zeros, no other memory has
-- changed, the page of the address translates to it, whatever was mapped there before, and every
-- other address with the same bits from 48 on as before. Otherwise, and only then, the process
-- exits, every translation with those bits is as before, and the page is freed if there was one.
-- The root is a table of the top level, the address is not on the last page with its bits from 48
-- on, and the page given lies below 2^51.
pub handle_page_fault-Gives :
    (addr lo hi : ℕ) (page : Option ℕ) (b : ℕ) (mem : ℕ → ℕ) (t : Table)
    → IsTable 3 t
    → in_region lo hi addr ≡ true
    → addr % 2 ^ 48 + pg_size < 2 ^ 48
    → PagesBelow (2 ^ 39) page
    → Given addr page b mem t (handle_page_fault addr true lo hi page b mem t)
unfolding handle_page_fault
handle_page_fault-Gives addr lo hi page b mem t h region lt below =
    rw region (give_page-Given addr page b mem t h lt below)
