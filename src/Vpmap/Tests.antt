-- ===== src/Vpmap/Tests.antt =====
-- Page tables at concrete addresses.
use operating_system_osv.Base.{
  ℕ, ◌+◌, ◌*◌, ◌/◌, ◌%◌, ◌^◌, ◌≤◌, ◌<◌, ◌≡◌, refl, Option, some, none, ◌⊎◌, ◌==◌, ◌&&◌, leb,
  if◌then◌else◌, arith,
}
use operating_system_osv.Vpmap.{
  Table, absent, dir, ptes, entry_idx, new_table, pg_size, pg_round_down, memperm_ur, memperm_urw,
  memperm_to_pteperm, ppn, entry_at, vpmap_map, vpmap_unmap, vpmap_set_perm, vpmap_lookup_vaddr,
}
use operating_system_osv.Vpmap.Entries.{IsTable, new_table-IsTable}
use operating_system_osv.Vpmap.Mapping.{Maps, Maps-IsTable, vpmap_map-Maps}
use operating_system_osv.Vpmap.Perms.{vpmap_set_perm-Sets}
use operating_system_osv.Vpmap.Unmapping.{vpmap_unmap_overruns}

-- Two pages at 2 MB, and one more behind them.
abbrev two_pages : Option ℕ × Table
two_pages = vpmap_map 2097160 16777216 2 memperm_urw 9 (new_table 3)

abbrev behind : Table
behind = (vpmap_map 2129920 33554432 1 memperm_ur 9 two_pages.1).1

second_page : vpmap_lookup_vaddr 2101253 two_pages.1 ≡ some 16781317
unfolding vpmap_lookup_vaddr vpmap_map entry_idx
second_page = refl

budget : two_pages.0 ≡ some 6
unfolding vpmap_map entry_idx
budget = refl

no_tables : (vpmap_map 0 4096 1 memperm_ur 2 (new_table 3)).0 ≡ none
unfolding vpmap_map entry_idx
no_tables = refl

abbrev root : Table → ℕ → Table
root absent = λ k. absent
root (dir s) = s
root (ptes s) = λ k. absent

-- The page behind is gone when only the first one is unmapped.
behind_is_gone :
    (vpmap_lookup_vaddr 2129920 behind ≡ some 33554432)
    × (vpmap_lookup_vaddr 2129920 (dir (vpmap_unmap 2097152 1 (root behind)).0) ≡ none)
unfolding vpmap_lookup_vaddr vpmap_map vpmap_unmap entry_idx
behind_is_gone = (refl, refl)

two_pages-IsTable : IsTable 3 two_pages.1
unfolding pg_round_down
two_pages-IsTable =
    Maps-IsTable (pg_round_down 2097160) (pg_round_down 16777216) 2 9 (new_table 3)
      (vpmap_map 2097160 16777216 2 memperm_urw 9 (new_table 3))
      (vpmap_map-Maps 2097160 16777216 2 memperm_urw 9 (new_table 3) (new_table-IsTable 3)
        (omega arith) (omega arith))

vpmap_map-Maps_example :
    Maps
      (pg_round_down 2097160)
      (pg_round_down 16777216)
      2
      9
      (new_table 3)
      (vpmap_map 2097160 16777216 2 memperm_urw 9 (new_table 3))
unfolding pg_round_down
vpmap_map-Maps_example =
    vpmap_map-Maps 2097160 16777216 2 memperm_urw 9 (new_table 3) (new_table-IsTable 3)
      (omega arith) (omega arith)

vpmap_set_perm-Sets_example :
    (vpmap_lookup_vaddr 2101253 (vpmap_set_perm 2097160 2 memperm_ur two_pages.1)
      ≡ vpmap_lookup_vaddr 2101253 two_pages.1)
    × (pg_round_down 2097160 ≤ 2101253
        → 2101253 < pg_round_down 2097160 + 2 * pg_size
        → entry_at 3 2101253 two_pages.1 % 2 ≡ 1
        → entry_at 3 2101253 (vpmap_set_perm 2097160 2 memperm_ur two_pages.1)
          ≡ ppn (entry_at 3 2101253 two_pages.1) + 1 + memperm_to_pteperm memperm_ur)
    × ((2101253 < pg_round_down 2097160) ⊎ (pg_round_down 2097160 + 2 * pg_size ≤ 2101253)
        → entry_at 3 2101253 (vpmap_set_perm 2097160 2 memperm_ur two_pages.1)
          ≡ entry_at 3 2101253 two_pages.1)
unfolding pg_round_down
vpmap_set_perm-Sets_example =
    vpmap_set_perm-Sets 2097160 2 2101253 memperm_ur two_pages.1 two_pages-IsTable (omega arith)
      (omega arith)

vpmap_unmap_overruns_example : entry_at 3 2129920 (dir (vpmap_unmap 2097152 1 (root behind)).0) ≡ (
    if (pg_round_down 2097152 / 2 ^ 21 == 2129920 / 2 ^ 21) && leb (pg_round_down 2097152) 2129920
    then 0
    else entry_at 3 2129920 (dir (root behind)))
unfolding pg_round_down
vpmap_unmap_overruns_example =
    vpmap_unmap_overruns 2097152 1 (root behind) 2129920 (omega arith) (omega arith) (omega arith)
      (omega arith)
