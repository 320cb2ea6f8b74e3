-- ===== src/Vm/Mapping.antt =====
-- memregion_map_internal: where a new region is linked, and which overlaps it lets pass.
use operating_system_osv.Base.{
  ℕ, ◌+◌, ◌%◌, ◌^◌, ◌<◌, ◌≡◌, refl, ap, ◌∙◌, List, [], ◌∷◌, ◌++◌, arith, none, some,
}
use operating_system_osv.Vm.{
  Region, pg_round_up, memregion_find, append_ordered, mapped, linked, map_at, map_placed, place,
  memregion_map,
}

-- Every region ends below `bound`, rounded up, and starts below `node_end`.
abbrev pub AllBelow : ℕ → ℕ → List Region → Type 0
AllBelow bound node_end [] = Unit
AllBelow bound node_end (r ∷ rs) =
    (pg_round_up r.end < bound) × (r.start < node_end) × AllBelow bound node_end rs

find-AllBelow :
    (addr size node_end : ℕ) (rs : List Region)
    → addr + size < 2 ^ 64
    → AllBelow (addr + size) node_end rs
    → memregion_find addr size rs ≡ none
unfolding memregion_find
find-AllBelow addr size node_end [] h b = refl
find-AllBelow addr size node_end (r ∷ rs) h b =
    ground (arith, find-AllBelow addr size node_end rs h b.2)

append_ordered-last :
    (bound : ℕ) (stale r : Region) (rs : List Region)
    → AllBelow bound stale.end rs
    → append_ordered stale r rs ≡ rs ++ (r ∷ [])
unfolding append_ordered
append_ordered-last bound stale r [] b = refl
append_ordered-last bound stale r (n ∷ rs) b =
    ground (arith, append_ordered-last bound stale r rs b.2)

place-given :
    (lower addr size : ℕ) (rs : List Region)
    → addr % 4096 ≡ 0
    → place lower addr size rs ≡ some addr
unfolding place
place-given lower addr size rs h = ground (arith, h)

-- The guard that is to refuse an overlap asks for a region enclosing `addr + (addr + size)`. So
-- where every region ends below that sum, rounded up, and starts below the stale end left in the
-- node that kmem_cache_alloc gives, a user mapping at a given, aligned address succeeds whatever it
-- overlaps, and is linked last, whatever its address. The addresses do not wrap and stay below the
-- kernel's.
pub memregion_map_lem :
    (lower user_end addr size : ℕ) (stale : Region) (rs : List Region)
    → addr % 4096 ≡ 0
    → addr + (addr + size) < 2 ^ 64
    → addr + (size + 4095) < 2 ^ 64
    → pg_round_up (addr + size) < user_end
    → AllBelow (addr + (addr + size)) stale.end rs
    → memregion_map lower user_end (some stale) addr size rs
      ≡ mapped
          (record stale { start = addr; end = addr + size })
          (rs ++ (record stale { start = addr; end = addr + size } ∷ []))
memregion_map_lem lower user_end addr size stale rs aligned h w u b =
    unfold memregion_map in
    (ap (map_placed user_end (some stale) size rs) (place-given lower addr size rs aligned) ∙ at)
  where
    r : Region
    r = record stale { start = addr; end = addr + size }

    at : map_placed user_end (some stale) size rs (some addr) ≡ mapped r (rs ++ (r ∷ []))
    at =
        unfold map_placed map_at linked in
        ground (
          arith,
          find-AllBelow addr (addr + size) stale.end rs h b,
          append_ordered-last (addr + (addr + size)) stale r rs b,
        )
