-- ===== src/Paths/Tests.antt =====
-- The path `/a/b` from a root directory.
use operating_system_osv.Base.{ℕ, ◌+◌, ◌≡◌, ◌≢◌, List, [], ◌∷◌, some, Bool, true, arith}
use operating_system_osv.Paths.{Lookup, inode, find_parent}
use operating_system_osv.Paths.Walk.{IsName, join, resolve, find_parent_lem}

abbrev all_dirs : ℕ → Bool
all_dirs _ = true

abbrev next_inode : ℕ → List ℕ → Lookup
next_inode i _ = inode (i + 1)

abbrev name_a : List ℕ
name_a = 97 ∷ []

abbrev name_b : List ℕ
name_b = 98 ∷ []

one_character : (c : ℕ) → c ≢ 47 → IsName (c ∷ [])
one_character c h = record { no_slash = (h, tt); nonempty = omega arith; short = omega arith }

find_parent_lem_example :
    find_parent all_dirs next_inode 2 1 (join (name_a ∷ name_b ∷ []))
    ≡ some (resolve all_dirs next_inode 1 name_a (name_b ∷ []))
find_parent_lem_example =
    find_parent_lem all_dirs next_inode 2 1 name_a (name_b ∷ [])
      (one_character 97 (omega arith), (one_character 98 (omega arith), tt)) (omega arith)
