-- ===== src/Proc/Tests.antt =====
-- Processes on concrete tables.
use operating_system_osv.Base.{
  ℕ, ◌≡◌, ◌≢◌, ◌⊎◌, refl, [], ◌∷◌, none, some, true, false, arith, inl, inr,
}
use operating_system_osv.Proc.{
  Proc, World, Answers, fork_child, duplicate_process_state, proc_init, proc_fork, proc_exit,
  wait_section, reaps,
}
use operating_system_osv.Proc.Waiting.{Waits, wait_section-Waits}
use operating_system_osv.Proc.Lifecycle.{fork_exit_wait}

abbrev init : Proc
init = record {
  pid = 1;
  parent = none;
  has_exited = false;
  exit_status = 0;
  file_descriptors = λ _. none;
}

-- The process at 0 runs, with pid 1.
abbrev one_proc : World
one_proc = record {
  proc = λ _. init;
  ptable = 0 ∷ [];
  pid_allocator = 2;
  ref = λ _. 0;
  released = [];
}

abbrev granted : Answers
granted = record {
  struct_at = some 5;
  as_ok = true;
  inode_ok = true;
  copy_ok = true;
  thread_ok = true;
}

abbrev forked : World
forked = (proc_fork granted 0 one_proc).1

fork_at_5 : (proc_fork granted 0 one_proc) ≡ (some 5, forked)
unfolding proc_fork fork_child duplicate_process_state proc_init
fork_at_5 = refl

fork_exit_wait_example : (wait_section 0 2 (proc_exit 5 9 forked)).0 ≡ reaps 5 2 9
fork_exit_wait_example = fork_exit_wait granted 0 5 9 one_proc forked fork_at_5 fresh alone
  where
    fresh : (i : ℕ) → (i ≡ 0) ⊎ ⊥ → 5 ≢ i
    fresh i (inl e) q = omega arith
    fresh i (inr m) q = m

    alone : (i : ℕ) → (i ≡ 0) ⊎ ⊥ → false ≡ false
    alone i m = refl

wait_section-Waits_example : Waits 0 2 forked (wait_section 0 2 forked)
wait_section-Waits_example = wait_section-Waits 0 2 forked
