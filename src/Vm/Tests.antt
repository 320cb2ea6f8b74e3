-- ===== src/Vm/Tests.antt =====
-- An address space of two regions.
use operating_system_osv.Base.{◌^◌, ◌≡◌, refl, ◌*◌, List, [], ◌∷◌, none, some, arith, value, ◌⊎◌}
use operating_system_osv.Vm.{
  Region, add_addr, validate_ptr, memregion_extend, sys_sbrk, mapped, memregion_map,
  find_free_vaddr,
}
use operating_system_osv.Vm.Lookup.{Validates, validate_ptr-Validates}
use operating_system_osv.Vm.Extend.{AllApart, Extends, memregion_extend-Extends, sys_sbrk_lem}
use operating_system_osv.Vm.Placement.{Places, find_free_vaddr-Places}
use operating_system_osv.Vm.Mapping.{memregion_map_lem}

abbrev code : Region
code = record { id = 0; start = 4096; end = 8192 }

abbrev heap : Region
heap = record { id = 1; start = 8192; end = 8192 }

abbrev regions : List Region
regions = code ∷ heap ∷ []

validate_ptr-Validates_example : Validates 4100 16 regions (validate_ptr 4100 16 regions)
validate_ptr-Validates_example = validate_ptr-Validates 4100 16 regions (omega arith) (omega arith)

memregion_extend-Extends_example : Extends heap 100 regions (memregion_extend heap 100 regions)
memregion_extend-Extends_example = memregion_extend-Extends heap 100 regions

sys_sbrk_lem_example :
    ((sys_sbrk heap 100 regions).0 ≡ value 8192)
    × (((sys_sbrk heap 100 regions).1 ≡ regions)
        ⊎ AllApart 1 8192 (add_addr 8192 100) (sys_sbrk heap 100 regions).1)
sys_sbrk_lem_example = sys_sbrk_lem heap 100 regions

-- A mapping over the middle of the code region.
abbrev stale : Region
stale = record { id = 2; start = 0; end = 2 ^ 63 }

abbrev over : Region
over = record stale { start = 4096; end = 8192 }

memregion_map_lem_example :
    memregion_map (2 ^ 62) (2 ^ 63) (some stale) 4096 4096 (code ∷ [])
    ≡ mapped over (code ∷ over ∷ [])
memregion_map_lem_example =
    memregion_map_lem (2 ^ 62) (2 ^ 63) 4096 4096 stale (code ∷ []) refl (omega arith) (omega arith)
      (omega arith) (omega arith, omega arith, tt)

find_free_vaddr-Places_example :
    Places (2 ^ 63) 8192 8192 regions (find_free_vaddr (2 ^ 63) 8192 regions)
find_free_vaddr-Places_example =
    find_free_vaddr-Places (2 ^ 63) 8192 regions (omega arith) (omega arith) (omega arith)
      (omega arith, omega arith, omega arith, (omega arith, omega arith, omega arith, tt))

-- An address space without regions that has room for the range, but not for it twice.
room_for_one : find_free_vaddr (2 ^ 62) (3 * 2 ^ 60) [] ≡ none
unfolding find_free_vaddr
room_for_one = refl
