-- ===== src/Pgfault/Tests.antt =====
-- Page faults at concrete addresses.
use operating_system_osv.Base.{ℕ, ◌-◌, ◌≡◌, refl, some, [], true, false, arith}
use operating_system_osv.Vpmap.{new_table}
use operating_system_osv.Vpmap.Entries.{new_table-IsTable}
use operating_system_osv.Pgfault.{
  ustack_upperbound, exits, panicked, in_region, PagesBelow, Given, handle_page_fault,
  handle_page_fault-Gives,
}

abbrev memory : ℕ → ℕ
memory a = 7

below_the_stack :
    handle_page_fault (ustack_upperbound - 40961) true 4096 8192 (some 9) 3 memory (new_table 3)
    ≡ exits [] memory (new_table 3)
unfolding handle_page_fault
below_the_stack = refl

in_the_kernel : handle_page_fault 5000 false 4096 8192 (some 9) 3 memory (new_table 3) ≡ panicked
unfolding handle_page_fault
in_the_kernel = refl

handle_page_fault-Gives_example :
    Given
      (ustack_upperbound - 8)
      (some 9)
      3
      memory
      (new_table 3)
      (handle_page_fault (ustack_upperbound - 8) true 4096 8192 (some 9) 3 memory (new_table 3))
unfolding in_region PagesBelow
handle_page_fault-Gives_example =
    handle_page_fault-Gives (ustack_upperbound - 8) 4096 8192 (some 9) 3 memory (new_table 3)
      (new_table-IsTable 3) refl (omega arith) (omega arith)
