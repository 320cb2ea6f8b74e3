-- ===== src/Vpmap/Perms.antt =====
-- What vpmap_set_perm changes in the entries, and what it keeps.
use operating_system_osv.Base.{
  ℕ, zero, suc, ◌+◌, ◌*◌, ◌/◌, ◌%◌, ◌^◌, ◌≤◌, ◌<◌, ◌≡◌, refl, sym, ap, ◌∙◌, Option, none, some, ◌⊎◌,
  inl, inr, true, dec_lt, arith, ℕ_discrete,
}
use operating_system_osv.Vpmap.{
  Table, absent, dir, ptes, entry_idx, pg_size, pg_round_down, MemPerm, memperm_r, memperm_rw,
  memperm_ur, memperm_urw, memperm_to_pteperm, ppn, entry_at, store_pte, set_perm_at, set_perms,
  vpmap_set_perm, vpmap_lookup_vaddr,
}
use operating_system_osv.Vpmap.Entries.{IsTable, Stored, agree, store_pte-Stored}
use operating_system_osv.Vpmap.Pages.{agree-page}
use operating_system_osv.Vpmap.Unmapping.{rounded}

entry_at-agree : (l v u : ℕ) (t : Table) → agree l v u ≡ true → entry_at l v t ≡ entry_at l u t
unfolding agree entry_at
entry_at-agree zero v u absent h = refl
entry_at-agree zero v u (dir s) h = refl
entry_at-agree zero v u (ptes s) h = ground (arith, h)
entry_at-agree (suc l) v u absent h = refl
entry_at-agree (suc l) v u (ptes s) h = refl
entry_at-agree (suc l) v u (dir s) h =
    let here : entry_idx v (suc l) ≡ entry_idx u (suc l) = ground (arith, h) in
    let below : agree l v u ≡ true = ground (arith, h) in
    ap (λ (n : ℕ). entry_at l v (s n)) here ∙ entry_at-agree l v u (s (entry_idx u (suc l))) below

-- What has become of the entry of an address: its page and PTE_P stay, in the range it has the
-- permission if it is present, and outside it is as before.
unfoldable pub IsChanged : ℕ → ℕ → ℕ → ℕ → Table → Table → Type 0
IsChanged v n perm u t t' =
    (ppn (entry_at 3 u t') ≡ ppn (entry_at 3 u t))
    × (entry_at 3 u t' % 2 ≡ entry_at 3 u t % 2)
    × (v ≤ u
        → u < v + n * pg_size
        → entry_at 3 u t % 2 ≡ 1
        → entry_at 3 u t' ≡ ppn (entry_at 3 u t) + 1 + perm)
    × ((u < v) ⊎ (v + n * pg_size ≤ u) → entry_at 3 u t' ≡ entry_at 3 u t)

perm_low : (perm : MemPerm) → (memperm_to_pteperm perm % 2 ≡ 0) × (memperm_to_pteperm perm < 8)
unfolding memperm_to_pteperm
perm_low memperm_r = (refl, omega arith)
perm_low memperm_rw = (refl, omega arith)
perm_low memperm_ur = (refl, omega arith)
perm_low memperm_urw = (refl, omega arith)

ppn-with_perm :
    (e perm : ℕ)
    → perm % 2 ≡ 0
    → perm < 8
    → (ppn (ppn e + e % 2 + perm) ≡ ppn e) × ((ppn e + e % 2 + perm) % 2 ≡ e % 2)
unfolding ppn
ppn-with_perm e perm h k = (omega arith, omega arith)

-- The entry of an address after one store at `v`.
changed :
    (v u perm : ℕ) (t : Table) (r : Option ℕ × Table)
    → v % 4096 ≡ 0
    → v < 2 ^ 48
    → u < 2 ^ 48
    → perm % 2 ≡ 0
    → perm < 8
    → Stored 3 v (ppn (entry_at 3 v t) + entry_at 3 v t % 2 + perm) t r
    → IsChanged v 1 perm u t r.1
unfolding IsChanged
changed v u perm t (none, t') hv bv bu h k (w, f, z) = elim (ℕ_discrete (v / 4096) (u / 4096)) [
  | yes q ↦ rw (f u) (refl, refl, λ _ _ e. absurd (omega (arith, e, at_u q)), λ _. refl)
  | no ne ↦ rw (f u) (refl, refl, λ a b _. absurd (omega (arith, ne, a, b)), λ _. refl)
]
  where
    at_u : v / 4096 ≡ u / 4096 → entry_at 3 u t ≡ 0
    at_u q =
        sym (entry_at-agree 3 v u t (ground (arith, agree-page v u (omega (arith, bv, bu)), q))) ∙ z
changed v u perm t (some b, t') hv bv bu h k (w, f) = elim (ℕ_discrete (v / 4096) (u / 4096)) [
  | yes q ↦
      let e = entry_at-agree 3 v u t (ground (arith, agree-page v u (omega (arith, bv, bu)), q)) in
      let here : entry_at 3 u t' ≡ ppn (entry_at 3 u t) + entry_at 3 u t % 2 + perm =
        f u ∙ rw (agree-page v u (omega (arith, bv, bu)), e) (ground (arith, q)) in
      let (low, bit) = ppn-with_perm (entry_at 3 u t) perm h k in
      rw here (low, bit, λ _ _ p. rw p refl, λ out. absurd (ground (arith, out, q, hv)))
  | no ne ↦
      let there : entry_at 3 u t' ≡ entry_at 3 u t =
        f u ∙ rw (agree-page v u (omega (arith, bv, bu))) (ground (arith, ne)) in
      rw there (refl, refl, λ a b _. absurd (omega (arith, ne, a, b)), λ _. refl)
]

IsChanged-suc :
    (v n perm u : ℕ) (t t1 t2 : Table)
    → IsChanged v 1 perm u t t1
    → IsChanged (v + pg_size) n perm u t1 t2
    → IsChanged v (suc n) perm u t t2
unfolding IsChanged
IsChanged-suc v n perm u t t1 t2 (a, b, c, d) (a', b', c', d') = (
  a' ∙ a,
  b' ∙ b,
  λ lo hi p. elim (dec_lt u (v + pg_size)) [
    | yes first ↦ d' (inl first) ∙ c lo (omega (arith, first)) p
    | no later ↦ c' (omega (arith, later)) (omega (arith, hi)) (b ∙ p) ∙ rw a refl
  ],
  λ out. d' (outside out) ∙ d (before out),
)
  where
    outside :
        (u < v) ⊎ (v + suc n * pg_size ≤ u) → (u < v + pg_size) ⊎ (v + pg_size + n * pg_size ≤ u)
    outside (inl x) = inl (omega arith)
    outside (inr x) = inr (omega arith)

    before : (u < v) ⊎ (v + suc n * pg_size ≤ u) → (u < v) ⊎ (v + 1 * pg_size ≤ u)
    before (inl x) = inl x
    before (inr x) = inr (omega arith)

set_perm_at-IsTable : (v perm : ℕ) (t : Table) → IsTable 3 t → IsTable 3 (set_perm_at v perm t)
unfolding set_perm_at
set_perm_at-IsTable v perm t h = Stored-IsTable (store_pte 3 v w 0 t) (store_pte-Stored 3 v w 0 t h)
  where
    w : ℕ
    w = ppn (entry_at 3 v t) + entry_at 3 v t % 2 + perm

    Stored-IsTable : (r : Option ℕ × Table) → Stored 3 v w t r → IsTable 3 r.1
    Stored-IsTable (none, t') (k, _, _) = k
    Stored-IsTable (some b, t') (k, _) = k

pub set_perms-IsChanged :
    (n v perm u : ℕ) (t : Table)
    → IsTable 3 t
    → v % 4096 ≡ 0
    → v + n * pg_size ≤ 2 ^ 48
    → u < 2 ^ 48
    → perm % 2 ≡ 0
    → perm < 8
    → IsTable 3 (set_perms n v perm t) × IsChanged v n perm u t (set_perms n v perm t)
unfolding set_perms IsChanged set_perm_at
set_perms-IsChanged zero v perm u t h hv bv bu even low = (h, unchanged)
  where
    unchanged : IsChanged v 0 perm u t t
    unchanged = (refl, refl, λ a b _. absurd (omega (arith, a, b)), λ _. refl)
set_perms-IsChanged (suc n) v perm u t h hv bv bu even low =
    let (k, rest) =
      set_perms-IsChanged n (v + pg_size) perm u (set_perm_at v perm t)
        (set_perm_at-IsTable v perm t h) (omega arith) (omega arith) bu even low in
    (
      k,
      IsChanged-suc v n perm u t (set_perm_at v perm t)
          (set_perms n (v + pg_size) perm (set_perm_at v perm t)) first rest,
    )
  where
    w : ℕ
    w = ppn (entry_at 3 v t) + entry_at 3 v t % 2 + perm

    first : IsChanged v 1 perm u t (set_perm_at v perm t)
    first =
        changed v u perm t (store_pte 3 v w 0 t) hv (omega arith) bu even low
          (store_pte-Stored 3 v w 0 t h)

-- vpmap_set_perm keeps every translation, gives each page of the range that is present the
-- permission with PTE_P and no other flag, and changes no entry outside the range. The root is a
-- table of the top level, and the range lies below 2^48.
pub vpmap_set_perm-Sets :
    (v n u : ℕ) (perm : MemPerm) (t : Table)
    → IsTable 3 t
    → pg_round_down v + n * pg_size ≤ 2 ^ 48
    → u < 2 ^ 48
    → (vpmap_lookup_vaddr u (vpmap_set_perm v n perm t) ≡ vpmap_lookup_vaddr u t)
      × (pg_round_down v ≤ u
          → u < pg_round_down v + n * pg_size
          → entry_at 3 u t % 2 ≡ 1
          → entry_at 3 u (vpmap_set_perm v n perm t)
            ≡ ppn (entry_at 3 u t) + 1 + memperm_to_pteperm perm)
      × ((u < pg_round_down v) ⊎ (pg_round_down v + n * pg_size ≤ u)
          → entry_at 3 u (vpmap_set_perm v n perm t) ≡ entry_at 3 u t)
unfolding vpmap_set_perm vpmap_lookup_vaddr IsChanged
vpmap_set_perm-Sets v n u perm t h bv bu =
    let (even, low) = perm_low perm in
    let (_, (page, bit, set, kept)) =
      set_perms-IsChanged n (pg_round_down v) (memperm_to_pteperm perm) u t h (rounded v).1 bv bu
        even low in
    (rw (page, bit) refl, set, kept)
