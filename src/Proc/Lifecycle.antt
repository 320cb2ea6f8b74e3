-- ===== src/Proc/Lifecycle.antt =====
-- A child's life: proc_fork, its proc_exit and its parent's proc_wait.
use operating_system_osv.Base.{
  ℕ, ◌+◌, ◌%◌, ◌^◌, ◌≡◌, ◌≢◌, refl, ◌∙◌, ap, ap₂, subst, List, [], ◌∷◌, ◌++◌, Option, none, some,
  Bool, true, false, update, arith, In, inl, inr,
}
use operating_system_osv.Proc.{
  Proc, World, Answers, proc_init, duplicate_process_state, fork_child, proc_fork, set_proc,
  put_files, is_wanted, reaps, scan, wait_section, reaped, exit_close, exit_notify, notified,
  proc_exit,
}

-- What proc_fork has made of a child `c`.
pub record IsChild (parent c : ℕ) (w w' : World) : Type 0 where
  pub pid : (w'.proc c).pid ≡ w.pid_allocator
  pub next_pid : w'.pid_allocator ≡ (w.pid_allocator + 1) % 2 ^ 32
  pub parent_of : (w'.proc c).parent ≡ some parent
  pub alive : (w'.proc c).has_exited ≡ false
  pub ptable : w'.ptable ≡ w.ptable ++ (c ∷ [])
  pub others : (i : ℕ) → c ≢ i → w'.proc i ≡ w.proc i

abbrev pub Forks : ℕ → World → Option ℕ × World → Type 0
Forks parent w (none, w') = w'.ptable ≡ w.ptable
Forks parent w (some c, w') = IsChild parent c w w'

proc_fork-Forks : (a : Answers) (parent : ℕ) (w : World) → Forks parent w (proc_fork a parent w)
unfolding proc_fork fork_child duplicate_process_state proc_init
proc_fork-Forks a parent w = go a.struct_at a.as_ok a.inode_ok a.copy_ok a.thread_ok
  where
    go :
        (o : Option ℕ) (as_ok inode_ok copy_ok thread_ok : Bool)
        → Forks parent w (
            proc_fork
              (record {
                struct_at = o;
                as_ok = as_ok;
                inode_ok = inode_ok;
                copy_ok = copy_ok;
                thread_ok = thread_ok;
              })
              parent
              w)
    go none _ _ _ _ = refl
    go (some c) false _ _ _ = refl
    go (some c) true false _ _ = refl
    go (some c) true true false _ = refl
    go (some c) true true true false = refl
    go (some c) true true true true = record {
      pid = ground arith;
      next_pid = refl;
      parent_of = ground arith;
      alive = ground arith;
      ptable = refl;
      others = λ i ne. ground (arith, ne);
    }

-- What proc_exit changes of the processes.
record IsExited (c status : ℕ) (w w' : World) : Type 0 where
  pid : (w'.proc c).pid ≡ (w.proc c).pid
  parent_of : (w'.proc c).parent ≡ (w.proc c).parent
  exited : (w'.proc c).has_exited ≡ true
  status_of : (w'.proc c).exit_status ≡ status
  ptable : w'.ptable ≡ w.ptable
  others : (i : ℕ) → c ≢ i → w'.proc i ≡ w.proc i

exit-IsExited :
    (c status q : ℕ) (w : World)
    → (w.proc c).parent ≡ some q
    → IsExited c status w (proc_exit c status w)
unfolding proc_exit put_files set_proc
exit-IsExited c status q w e = rw (told (exit_close c w) (kept ∙ e)) (record {
  pid = ground arith;
  parent_of = ground arith;
  exited = ground arith;
  status_of = ground arith;
  ptable = refl;
  others = λ i ne. ground (arith, ne);
})
  where
    kept : ((exit_close c w).proc c).parent ≡ (w.proc c).parent
    kept = ground arith

    told :
        (v : World)
        → (v.proc c).parent ≡ some q
        → exit_notify c status v ≡ record v {
          proc = update v.proc c (record (v.proc c) { exit_status = status; has_exited = true });
        }
    told v p = ap (notified c status v) p

scan_past :
    (q pid c : ℕ) (proc : ℕ → Proc) (xs : List ℕ)
    → ((i : ℕ) → In i xs → is_wanted q pid (proc i) ≡ false)
    → is_wanted q pid (proc c) ≡ true
    → (proc c).has_exited ≡ true
    → scan q pid proc false (xs ++ (c ∷ [])) ≡ reaps c (proc c).pid (proc c).exit_status
unfolding scan
scan_past q pid c proc [] h w e = rw (w, e) refl
scan_past q pid c proc (x ∷ xs) h w e =
    rw (h x (inl refl)) (scan_past q pid c proc xs (λ i m. h i (inr m)) w e)

-- If proc_fork makes a child `c` whose struct is none of those in the process table, and no process
-- in the table is a child of the same parent with the pid that the child gets, then, after the child
-- has called proc_exit with `status`, the parent's proc_wait for its pid reaps it, with that pid and
-- that status, and without going round again.
pub fork_exit_wait :
    (a : Answers) (parent c status : ℕ) (w w' : World)
    → proc_fork a parent w ≡ (some c, w')
    → ((i : ℕ) → In i w.ptable → c ≢ i)
    → ((i : ℕ) → In i w.ptable → is_wanted parent w.pid_allocator (w.proc i) ≡ false)
    → (wait_section parent w.pid_allocator (proc_exit c status w')).0
      ≡ reaps c w.pid_allocator status
unfolding wait_section
fork_exit_wait a parent c status w w' e fresh alone =
    let f : IsChild parent c w w' = subst (Forks parent w) e (proc_fork-Forks a parent w) in
    let x = exit-IsExited c status parent w' f.parent_of in
    let v = proc_exit c status w' in
    let pid : (v.proc c).pid ≡ w.pid_allocator = x.pid ∙ f.pid in
    let scanned =
      scan_past parent w.pid_allocator c v.proc w.ptable
        (λ i m.
          ap (is_wanted parent w.pid_allocator) (x.others i (fresh i m) ∙ f.others i (fresh i m))
          ∙ alone i m)
        (wanted v.proc (x.parent_of ∙ f.parent_of) pid) x.exited in
    round v (
      ap (scan parent w.pid_allocator v.proc false) (x.ptable ∙ f.ptable)
      ∙ scanned
      ∙ ap₂ (reaps c) pid x.status_of)
  where
    wanted :
        (p : ℕ → Proc)
        → (p c).parent ≡ some parent
        → (p c).pid ≡ w.pid_allocator
        → is_wanted parent w.pid_allocator (p c) ≡ true
    wanted p q r = ground (arith, q, r)

    round :
        (v : World)
        → scan parent w.pid_allocator v.proc false v.ptable ≡ reaps c w.pid_allocator status
        → (wait_section parent w.pid_allocator v).0 ≡ reaps c w.pid_allocator status
    round v r = unfold reaped in (rw r refl)
