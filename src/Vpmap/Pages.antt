-- ===== src/Vpmap/Pages.antt =====
-- The translation of an address after one page is stored: addresses with the same bits above 48
-- and the same four indices lie on the same page.
use operating_system_osv.Base.{
  ℕ, suc, ◌+◌, ◌-◌, ◌*◌, ◌/◌, ◌%◌, ◌^◌, ◌<◌, ◌≡◌, Option, some, true, ◌==◌, leb, ltb, ◌&&◌,
  if◌then◌else◌, arith, ℕ_discrete,
}
use operating_system_osv.Vpmap.{
  Table, pg_size, MemPerm, memperm_r, memperm_rw, memperm_ur, memperm_urw, memperm_to_pteperm, ppn,
  is_present, entry_idx, entry_at, vpmap_lookup_vaddr,
}
use operating_system_osv.Vpmap.Entries.{agree}

pub agree-page : (v u : ℕ) → v / 2 ^ 48 ≡ u / 2 ^ 48 → agree 3 v u ≡ (v / 4096 == u / 4096)
unfolding agree entry_idx
agree-page v u h = ground arith

pub ppn-entry :
    (p : ℕ) (perm : MemPerm)
    → p % 4096 ≡ 0
    → p < 2 ^ 51
    → ppn (ppn p + 1 + memperm_to_pteperm perm) ≡ p
unfolding ppn memperm_to_pteperm
ppn-entry p memperm_r h k = omega arith
ppn-entry p memperm_rw h k = omega arith
ppn-entry p memperm_ur h k = omega arith
ppn-entry p memperm_urw h k = omega arith

pub entry-is_present :
    (p : ℕ) (perm : MemPerm) → is_present (ppn p + 1 + memperm_to_pteperm perm) ≡ true
unfolding ppn memperm_to_pteperm
entry-is_present p memperm_r = ground arith
entry-is_present p memperm_rw = ground arith
entry-is_present p memperm_ur = ground arith
entry-is_present p memperm_urw = ground arith

-- What an address translates to with `n` pages from `p` on mapped at `v`.
unfoldable pub with_pages : ℕ → ℕ → ℕ → Table → ℕ → Option ℕ
with_pages v p n t u =
    if leb v u && ltb u (v + n * pg_size) then some (p + (u - v)) else vpmap_lookup_vaddr u t

pub one_page :
    (v p u : ℕ) (perm : MemPerm) (t t' : Table)
    → v % 4096 ≡ 0
    → p % 4096 ≡ 0
    → v / 2 ^ 48 ≡ u / 2 ^ 48
    → p < 2 ^ 51
    → entry_at 3 u t'
      ≡ (if agree 3 v u then ppn p + 1 + memperm_to_pteperm perm else entry_at 3 u t)
    → vpmap_lookup_vaddr u t' ≡ with_pages v p 1 t u
unfolding vpmap_lookup_vaddr with_pages
one_page v p u perm t t' hv hp bv bp e = elim (ℕ_discrete (v / 4096) (u / 4096)) [
  | yes q ↦
      let at_u : entry_at 3 u t' ≡ ppn p + 1 + memperm_to_pteperm perm =
        ground (arith, e, agree-page v u bv, q) in
      rw (at_u, ppn-entry p perm hp bp, entry-is_present p perm) (ground arith)
  | no ne ↦
      let at_u : entry_at 3 u t' ≡ entry_at 3 u t = ground (arith, e, agree-page v u bv, ne) in
      rw at_u (ground arith)
]

pub with_pages-suc :
    (v p n u : ℕ) (t t' : Table)
    → vpmap_lookup_vaddr u t' ≡ with_pages v p 1 t u
    → with_pages (v + pg_size) (p + pg_size) n t' u ≡ with_pages v p (suc n) t u
unfolding with_pages
with_pages-suc v p n u t t' e = ground (arith, e)
