-- ===== src/Vpmap/Budget.antt =====
-- How many tables a store of find_pte takes: those that are absent on the way to the entry.
use operating_system_osv.Base.{ℕ, zero, suc, ◌+◌, ◌≤◌, ◌<◌, ◌≡◌, refl, Option, none, some, arith}
use operating_system_osv.Vpmap.{
  Table, absent, dir, ptes, new_table, entry_idx, open_table, store_pte,
}
use operating_system_osv.Vpmap.Entries.{IsEntry, IsTable, new_table-IsTable, no_page, store_below}

-- The tables that are absent on the way from an entry that leads to a table of the level.
unfoldable pub missing : ℕ → ℕ → Table → ℕ
missing l v absent = suc l
missing zero v (dir s) = 0
missing (suc l) v (dir s) = missing l v (s (entry_idx v (suc l)))
missing l v (ptes s) = 0

-- With a budget of `b` and `m` tables to take, a store fails, or leaves the rest.
abbrev pub Spends : ℕ → ℕ → Option ℕ → Type 0
Spends b m none = b < m
Spends b m (some b') = b' + m ≡ b

missing-new_table : (l v : ℕ) → missing l v (new_table l) ≡ l
unfolding missing
missing-new_table zero v = refl
missing-new_table (suc l) v = refl

missing_bound : (l v : ℕ) (t : Table) → missing l v t ≤ suc l
unfolding missing
missing_bound zero v absent = omega arith
missing_bound (suc l) v absent = omega arith
missing_bound zero v (dir s) = omega arith
missing_bound (suc l) v (dir s) = omega (arith, missing_bound l v (s (entry_idx v (suc l))))
missing_bound zero v (ptes s) = omega arith
missing_bound (suc l) v (ptes s) = omega arith

pub missing-le : (l v : ℕ) (t : Table) → IsTable l t → missing l v t ≤ l
unfolding missing
missing-le l v absent h = absurd h
missing-le zero v (dir s) h = absurd h
missing-le zero v (ptes s) h = omega arith
missing-le (suc l) v (ptes s) h = omega arith
missing-le (suc l) v (dir s) h = missing_bound l v (s (entry_idx v (suc l)))

-- What opening the entry's table spends, and what is missing below it.
Opened : ℕ → ℕ → ℕ → Table → Option (ℕ × Table) → Type 0
Opened l v b c none = b < missing l v c
Opened l v b c (some (b', t)) = IsTable l t × (b + missing l v t ≡ b' + missing l v c)

open_table-Opened : (l v b : ℕ) (c : Table) → IsEntry l c → Opened l v b c (open_table l b c)
unfolding open_table Opened missing
open_table-Opened l v zero absent h = omega arith
open_table-Opened l v (suc b) absent h = (new_table-IsTable l, omega (arith, missing-new_table l v))
open_table-Opened l v zero (dir s) h = (h, refl)
open_table-Opened l v (suc b) (dir s) h = (h, refl)
open_table-Opened l v zero (ptes s) h = (h, refl)
open_table-Opened l v (suc b) (ptes s) h = (h, refl)

Spends-same : (b m b' m' : ℕ) (r : Option ℕ) → b + m' ≡ b' + m → Spends b' m' r → Spends b m r
Spends-same b m b' m' none e h = omega (arith, e, h)
Spends-same b m b' m' (some x) e h = omega (arith, e, h)

through :
    (l v w b : ℕ) (s : ℕ → Table) (r : Option (ℕ × Table))
    → open_table l b (s (entry_idx v (suc l))) ≡ r
    → Opened l v b (s (entry_idx v (suc l))) r
    → ((b' : ℕ) (t : Table) → IsTable l t → Spends b' (missing l v t) (store_pte l v w b' t).0)
    → Spends b (missing (suc l) v (dir s)) (store_pte (suc l) v w b (dir s)).0
unfolding Opened missing
through l v w b s none e h below = rw (no_page l v w b s e) h
through l v w b s (some (b', t)) e (h, spent) below = rw (store_below l v w b b' s t e) (
    Spends-same b (missing l v (s (entry_idx v (suc l)))) b' (missing l v t)
      (store_pte l v w b' t).0 spent (below b' t h))

-- A store fails exactly if the budget is less than the tables that are missing on its way, and
-- takes exactly those.
pub store_pte-Spends :
    (l v w b : ℕ) (t : Table) → IsTable l t → Spends b (missing l v t) (store_pte l v w b t).0
unfolding store_pte missing
store_pte-Spends zero v w b absent h = absurd h
store_pte-Spends zero v w b (dir s) h = absurd h
store_pte-Spends zero v w b (ptes s) h = omega arith
store_pte-Spends (suc l) v w b absent h = absurd h
store_pte-Spends (suc l) v w b (ptes s) h = absurd h
store_pte-Spends (suc l) v w b (dir s) h =
    through l v w b s (open_table l b (s (entry_idx v (suc l)))) refl
      (open_table-Opened l v b (s (entry_idx v (suc l))) (h (entry_idx v (suc l))))
      (λ b' t k. store_pte-Spends l v w b' t k)
