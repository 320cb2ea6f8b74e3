-- ===== src/Fd/Tests.antt =====
-- A process with one open file, number 9, at descriptor 3.
use operating_system_osv.Base.{
  ℕ, zero, suc, ◌+◌, ◌≡◌, refl, none, some, arith, update, [], sum_below,
}
use operating_system_osv.Fd.{proc_max_file, Files, sys_dup, sys_close, reopen_all, close_all_fds}
use operating_system_osv.Fd.Lowest.{Dups, sys_dup-Dups}
use operating_system_osv.Fd.Counts.{uses_below, uses_below-update, IsBalanced, sys_dup-IsBalanced}
use operating_system_osv.Fd.Closing.{
  Closes, sys_close-Closes, reopen_all-counts, IsEmptied, close_all_fds_lem,
}

abbrev one_open : Files
one_open = record { fds = update (λ _. none) 3 (some 9); ref = update (λ _. 0) 9 1; released = [] }

no_uses : (n f : ℕ) → uses_below n f (λ _. none) ≡ 0
unfolding sum_below
no_uses zero f = refl
no_uses (suc n) f = omega (arith, no_uses n f)

one_open-IsBalanced : IsBalanced (λ _. 0) one_open
one_open-IsBalanced = record {
  few = λ f. omega arith;
  counted = λ f k. ground (
    arith,
    uses_below-update proc_max_file f 3 (λ _. none) (some 9) (omega arith),
    no_uses proc_max_file f,
  );
}

sys_dup-Dups_example : Dups 3 one_open (sys_dup 3 one_open)
sys_dup-Dups_example = sys_dup-Dups 3 one_open

sys_dup-IsBalanced_example : IsBalanced (λ _. 0) (sys_dup 3 one_open).1
sys_dup-IsBalanced_example = sys_dup-IsBalanced (λ _. 0) 3 one_open one_open-IsBalanced

sys_close-Closes_example : Closes (λ _. 0) 3 one_open (sys_close 3 one_open)
sys_close-Closes_example = sys_close-Closes (λ _. 0) 3 one_open one_open-IsBalanced

reopen_all-counts_example :
    (reopen_all 128 one_open.fds one_open).ref 9 ≡ 1 + uses_below 128 9 one_open.fds
reopen_all-counts_example = reopen_all-counts 128 9 one_open.fds one_open (omega arith)

close_all_fds_lem_example : IsEmptied (λ _. 0) proc_max_file one_open (close_all_fds one_open)
close_all_fds_lem_example = close_all_fds_lem (λ _. 0) one_open one_open-IsBalanced
