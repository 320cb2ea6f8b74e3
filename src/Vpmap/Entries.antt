-- ===== src/Vpmap/Entries.antt =====
-- The entries of the page tables that a store of find_pte leaves.
use operating_system_osv.Base.{
  ℕ, zero, suc, ◌≡◌, ◌≢◌, refl, ap, sym, ◌∙◌, subst, Option, none, some, Bool, ◌==◌, ◌&&◌,
  if◌then◌else◌, update, arith, ℕ_discrete,
}
use operating_system_osv.Vpmap.{
  Table, absent, dir, ptes, new_table, entry_idx, entry_at, open_table, store_pte,
}

-- The addresses have the same indices from a table of the level on.
unfoldable pub agree : ℕ → ℕ → ℕ → Bool
agree zero v u = entry_idx v 0 == entry_idx u 0
agree (suc l) v u = (entry_idx v (suc l) == entry_idx u (suc l)) && agree l v u

-- What an entry leads to on a level: nothing, or a table of that level, and so on below.
abbrev pub IsEntry : ℕ → Table → Type 0
IsEntry zero absent = Unit
IsEntry zero (dir s) = ⊥
IsEntry zero (ptes s) = Unit
IsEntry (suc l) absent = Unit
IsEntry (suc l) (dir s) = (k : ℕ) → IsEntry l (s k)
IsEntry (suc l) (ptes s) = ⊥

abbrev pub IsTable : ℕ → Table → Type 0
IsTable l absent = ⊥
IsTable l (dir s) = IsEntry l (dir s)
IsTable l (ptes s) = IsEntry l (ptes s)

-- What a store at `v` has done to the entries, by its answer.
abbrev pub Stored : ℕ → ℕ → ℕ → Table → Option ℕ × Table → Type 0
Stored l v w t (none, t') =
    IsTable l t' × ((u : ℕ) → entry_at l u t' ≡ entry_at l u t) × (entry_at l v t ≡ 0)
Stored l v w t (some b, t') =
    IsTable l t' × ((u : ℕ) → entry_at l u t' ≡ (if agree l v u then w else entry_at l u t))

pub IsTable-IsEntry : (l : ℕ) (t : Table) → IsTable l t → IsEntry l t
IsTable-IsEntry l absent h = absurd h
IsTable-IsEntry l (dir s) h = h
IsTable-IsEntry l (ptes s) h = h

pub new_table-IsTable : (l : ℕ) → IsTable l (new_table l)
new_table-IsTable zero = tt
new_table-IsTable (suc zero) = λ k. tt
new_table-IsTable (suc (suc l)) = λ k. tt

entry_at-absent : (l v : ℕ) → entry_at l v absent ≡ 0
unfolding entry_at
entry_at-absent zero v = refl
entry_at-absent (suc l) v = refl

new_table-zero : (l v : ℕ) → entry_at l v (new_table l) ≡ 0
unfolding entry_at
new_table-zero zero v = refl
new_table-zero (suc l) v = entry_at-absent l v

-- A table that is opened is one of its level, with the entries that were there.
Opens : ℕ → Table → Option (ℕ × Table) → Type 0
Opens l x none = (u : ℕ) → entry_at l u x ≡ 0
Opens l x (some (b, t)) = IsTable l t × ((u : ℕ) → entry_at l u t ≡ entry_at l u x)

open_table-Opens : (l b : ℕ) (x : Table) → IsEntry l x → Opens l x (open_table l b x)
unfolding open_table Opens
open_table-Opens l zero absent h = entry_at-absent l
open_table-Opens l (suc b) absent h =
    (new_table-IsTable l, λ u. new_table-zero l u ∙ sym (entry_at-absent l u))
open_table-Opens l zero (dir s) h = (h, λ u. refl)
open_table-Opens l (suc b) (dir s) h = (h, λ u. refl)
open_table-Opens l zero (ptes s) h = (h, λ u. refl)
open_table-Opens l (suc b) (ptes s) h = (h, λ u. refl)

pub update-IsEntry :
    (l : ℕ) (s : ℕ → Table) (k : ℕ) (t : Table)
    → ((j : ℕ) → IsEntry l (s j))
    → IsEntry l t
    → (j : ℕ) → IsEntry l (update s k t j)
update-IsEntry l s k t hs ht j = elim (ℕ_discrete k j) [
  | yes e ↦ subst (IsEntry l) (sym (at_k e)) ht
  | no ne ↦ subst (IsEntry l) (sym (elsewhere ne)) (hs j)
]
  where
    at_k : k ≡ j → update s k t j ≡ t
    at_k e = ground arith

    elsewhere : k ≢ j → update s k t j ≡ s j
    elsewhere ne = ground arith

descend :
    (l v w : ℕ) (s : ℕ → Table) (t : Table) (r : Option ℕ × Table)
    → ((k : ℕ) → IsEntry l (s k))
    → ((u : ℕ) → entry_at l u t ≡ entry_at l u (s (entry_idx v (suc l))))
    → Stored l v w t r
    → Stored (suc l) v w (dir s) (r.0, dir (update s (entry_idx v (suc l)) r.1))
unfolding entry_at agree
descend l v w s t (r, t') hs same = answer r
  where
    k : ℕ
    k = entry_idx v (suc l)

    elsewhere :
        (u : ℕ)
        → k ≢ entry_idx u (suc l)
        → update s k t' (entry_idx u (suc l)) ≡ s (entry_idx u (suc l))
    elsewhere u ne = ground arith

    at_k : (u : ℕ) → k ≡ entry_idx u (suc l) → update s k t' (entry_idx u (suc l)) ≡ t'
    at_k u e = ground arith

    below :
        (u : ℕ) → k ≡ entry_idx u (suc l) → entry_at l u t ≡ entry_at l u (s (entry_idx u (suc l)))
    below u e = same u ∙ ap (λ (n : ℕ). entry_at l u (s n)) e

    kept :
        ((u : ℕ) → entry_at l u t' ≡ entry_at l u t)
        → (u : ℕ) → entry_at (suc l) u (dir (update s k t')) ≡ entry_at (suc l) u (dir s)
    kept f u = elim (ℕ_discrete k (entry_idx u (suc l))) [
      | yes e ↦ ap (entry_at l u) (at_k u e) ∙ f u ∙ below u e
      | no ne ↦ ap (entry_at l u) (elsewhere u ne)
    ]

    stored :
        ((u : ℕ) → entry_at l u t' ≡ (if agree l v u then w else entry_at l u t))
        → (u : ℕ)
        → entry_at (suc l) u (dir (update s k t'))
          ≡ (if agree (suc l) v u then w else entry_at (suc l) u (dir s))
    stored f u = elim (ℕ_discrete k (entry_idx u (suc l))) [
      | yes e ↦ rw (at_k u e) (ground (arith, e, f u, below u e))
      | no ne ↦ rw (elsewhere u ne) (ground (arith, ne))
    ]

    answer :
        (r : Option ℕ)
        → Stored l v w t (r, t')
        → Stored (suc l) v w (dir s) (r, dir (update s k t'))
    answer none (h, f, z) =
        (update-IsEntry l s k t' hs (IsTable-IsEntry l t' h), kept f, sym (same v) ∙ z)
    answer (some b) (h, f) = (update-IsEntry l s k t' hs (IsTable-IsEntry l t' h), stored f)

pub no_page :
    (l v w b : ℕ) (s : ℕ → Table)
    → open_table l b (s (entry_idx v (suc l))) ≡ none
    → store_pte (suc l) v w b (dir s) ≡ (none, dir s)
unfolding store_pte
no_page l v w b s e = rw (store_pte, e) refl

pub store_below :
    (l v w b b' : ℕ) (s : ℕ → Table) (t : Table)
    → open_table l b (s (entry_idx v (suc l))) ≡ some (b', t)
    → store_pte (suc l) v w b (dir s)
      ≡ ((store_pte l v w b' t).0, dir (update s (entry_idx v (suc l)) (store_pte l v w b' t).1))
unfolding store_pte
store_below l v w b b' s t e = rw (store_pte, e) refl

through :
    (l v w b : ℕ) (s : ℕ → Table)
    → ((k : ℕ) → IsEntry l (s k))
    → ((b' : ℕ) (t : Table) → IsTable l t → Stored l v w t (store_pte l v w b' t))
    → (r : Option (ℕ × Table)) → open_table l b (s (entry_idx v (suc l))) ≡ r
    → Opens l (s (entry_idx v (suc l))) r
    → Stored (suc l) v w (dir s) (store_pte (suc l) v w b (dir s))
unfolding Opens entry_at
through l v w b s hs below none e op = rw (no_page l v w b s e) (hs, λ u. refl, op v)
through l v w b s hs below (some (b', t)) e (h, same) =
    rw (store_below l v w b b' s t e)
      (descend l v w s t (store_pte l v w b' t) hs same (below b' t h))

pub store_pte-Stored :
    (l v w b : ℕ) (t : Table) → IsTable l t → Stored l v w t (store_pte l v w b t)
unfolding store_pte entry_at agree
store_pte-Stored zero v w b absent h = absurd h
store_pte-Stored zero v w b (dir s) h = absurd h
store_pte-Stored zero v w b (ptes s) h = (tt, λ u. ground arith)
store_pte-Stored (suc l) v w b absent h = absurd h
store_pte-Stored (suc l) v w b (ptes s) h = absurd h
store_pte-Stored (suc l) v w b (dir s) h =
    through l v w b s h (λ b' t. store_pte-Stored l v w b' t)
      (open_table l b (s (entry_idx v (suc l)))) refl
      (open_table-Opens l b (s (entry_idx v (suc l))) (h (entry_idx v (suc l))))
