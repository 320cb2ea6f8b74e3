-- ===== src/Fd/Closing.antt =====
-- Closing descriptors: sys_close and close_all_fds keep the reference counts, and a file is
-- released with its last descriptor. fork: the loop of duplicate_process_state adds to them.
use operating_system_osv.Base.{
  ℕ, zero, suc, ◌+◌, ◌-◌, ◌%◌, ◌^◌, ◌≤◌, ◌<◌, ◌≡◌, refl, sym, ◌∙◌, ap, ◌⊎◌, inl, inr, Option, none,
  some, Bool, true, false, leb, ◌==◌, ◌&&◌, if◌then◌else◌, update, arith, inval, SysRet, value,
  error, ℕ_discrete, sum_below, ◌∷◌,
}
use operating_system_osv.Fd.{
  proc_max_file, Table, Files, fs_reopen_file, fs_close_file, sys_close, close_at, reopen_all,
  reopen_at, close_below, close_slot, close_all_fds,
}
use operating_system_osv.Fd.Counts.{
  refers, uses_below, uses, IsBalanced, uses_below-le, uses_below-update, close-counted,
}

-- What closing descriptor `fd` has done: it is unused, no other is changed, the counts still agree,
-- and the file, if it is neither stdin nor stdout, is released just if no descriptor refers to it.
pub record IsClosed (others : ℕ → ℕ) (fd f : ℕ) (s s' : Files) : Type 0 where
  pub balanced : IsBalanced others s'
  pub table : s'.fds ≡ update s.fds fd none
  pub release : s'.released ≡ (
      if (others f + uses f (update s.fds fd none) == 0) && leb 2 f
      then f ∷ s.released
      else s.released)

fds-close : (f : ℕ) (s : Files) → (fs_close_file f s).fds ≡ s.fds
unfolding fs_close_file
fds-close f s = ground arith

-- `u` descriptors still refer to `f`, whose count is now `u`.
released-close :
    (f u : ℕ) (s : Files)
    → u < 2 ^ 31
    → (2 ≤ f → (s.ref f + 2 ^ 32 - 1) % 2 ^ 32 ≡ u)
    → (fs_close_file f s).released ≡ (if (u == 0) && leb 2 f then f ∷ s.released else s.released)
unfolding fs_close_file
released-close f u s h e = ground (arith, e)

one_fewer :
    (others : ℕ → ℕ) (f n : ℕ) (s : Files)
    → others f + proc_max_file < 2 ^ 31
    → s.ref f ≡ others f + uses f s.fds
    → n < proc_max_file
    → s.fds n ≡ some f
    → (s.ref f + 2 ^ 32 - 1) % 2 ^ 32 ≡ others f + uses f (update s.fds n none)
one_fewer others f n s b c h e = ground (
  arith,
  uses_below-update proc_max_file f n s.fds none h,
  uses_below-le proc_max_file f s.fds,
  ap (refers f) e,
)

close_slot-IsClosed :
    (others : ℕ → ℕ) (fd f : ℕ) (s : Files)
    → IsBalanced others s
    → fd < proc_max_file
    → s.fds fd ≡ some f
    → IsClosed others fd f s (close_slot fd s (some f))
unfolding close_slot
close_slot-IsClosed others fd f s v h e =
    let t : update (fs_close_file f s).fds fd none ≡ update s.fds fd none =
      ap (λ t. update t fd none) (fds-close f s) in
    record {
      balanced = record {
        few = v.few;
        counted = λ g k.
            close-counted others f g fd s (v.few g) (v.counted g k) h e
            ∙ ap (λ t. others g + uses g t) (sym t);
      };
      table = t;
      release =
          released-close f (others f + uses f (update s.fds fd none)) s
            (omega (arith, v.few f, uses_below-le proc_max_file f (update s.fds fd none)))
            (λ k. one_fewer others f fd s (v.few f) (v.counted f k) h e);
    }

-- What sys_close answers.
abbrev pub Closes : (ℕ → ℕ) → ℕ → Files → SysRet × Files → Type 0
Closes others fd s (value _, s') =
    (fd < proc_max_file) × (f : ℕ) × (s.fds fd ≡ some f) × IsClosed others fd f s s'
Closes others fd s (error inval, s') = (s' ≡ s) × ((proc_max_file ≤ fd) ⊎ (s.fds fd ≡ none))
Closes others fd s (error _, s') = ⊥

-- If every count agrees, sys_close fails with ERR_INVAL, and changes nothing, exactly for a
-- descriptor out of range or not open. Else the descriptor becomes unused and no other changes,
-- the counts agree again, and the file is released just if it is neither stdin nor stdout and no
-- descriptor of any process refers to it any more.
pub sys_close-Closes :
    (others : ℕ → ℕ) (fd : ℕ) (s : Files)
    → IsBalanced others s
    → Closes others fd s (sys_close fd s)
unfolding sys_close close_at close_slot
sys_close-Closes others fd s v = in_range (leb proc_max_file fd) refl
  where
    at : (o : Option ℕ) → s.fds fd ≡ o → fd < proc_max_file → Closes others fd s (close_at fd s o)
    at none e h = (refl, inr e)
    at (some f) e h = (h, f, e, close_slot-IsClosed others fd f s v h e)

    in_range :
        (b : Bool)
        → leb proc_max_file fd ≡ b
        → Closes others fd s (if b then (error inval, s) else close_at fd s (s.fds fd))
    in_range true e = (refl, inl (ground arith))
    in_range false e = at (s.fds fd) refl (ground arith)

-- fork: after the loop over the first `n` descriptors of the parent's table `t`, the count of every
-- file has grown by the number of those that refer to it.
pub reopen_all-counts :
    (n g : ℕ) (t : Table) (s : Files)
    → s.ref g + n < 2 ^ 32
    → (reopen_all n t s).ref g ≡ s.ref g + uses_below n g t
unfolding reopen_all reopen_at fs_reopen_file sum_below
reopen_all-counts zero g t s h = omega arith
reopen_all-counts (suc n) g t s h = at (t n) (reopen_all-counts n g t s (omega arith))
  where
    at :
        (o : Option ℕ)
        → (reopen_all n t s).ref g ≡ s.ref g + uses_below n g t
        → (reopen_at (reopen_all n t s) o).ref g ≡ s.ref g + (uses_below n g t + refers g o)
    at none e = omega (arith, e)
    at (some f) e = ground (arith, e, uses_below-le n g t)

-- What close_below leaves behind after the first `n` descriptors: they are unused, the others are
-- as they were, and the counts agree.
pub record IsEmptied (others : ℕ → ℕ) (n : ℕ) (s s' : Files) : Type 0 where
  pub balanced : IsBalanced others s'
  pub unused : (i : ℕ) → i < n → s'.fds i ≡ none
  pub kept : (i : ℕ) → n ≤ i → s'.fds i ≡ s.fds i

close_slot-IsEmptied :
    (others : ℕ → ℕ) (n : ℕ) (s s' : Files) (o : Option ℕ)
    → n < proc_max_file
    → s'.fds n ≡ o
    → IsEmptied others n s s'
    → IsEmptied others (suc n) s (close_slot n s' o)
unfolding close_slot
close_slot-IsEmptied others n s s' none h e v = record {
  balanced = v.balanced;
  unused = λ i lt. elim (ℕ_discrete i n) [
    | yes q ↦ ap s'.fds q ∙ e
    | no ne ↦ v.unused i (omega (arith, ne))
  ];
  kept = λ i le. v.kept i (omega arith);
}
close_slot-IsEmptied others n s s' (some f) h e v =
    let c = close_slot-IsClosed others n f s' v.balanced h e in
    record {
      balanced = c.balanced;
      unused = λ i lt. ap (λ (t : Table). t i) c.table ∙ ground (arith, v.unused i);
      kept = λ i le. ap (λ (t : Table). t i) c.table ∙ ground (arith, v.kept i);
    }

close_below-IsEmptied :
    (others : ℕ → ℕ) (n : ℕ) (s : Files)
    → n ≤ proc_max_file
    → IsBalanced others s
    → IsEmptied others n s (close_below n s)
unfolding close_below
close_below-IsEmptied others zero s h v = record {
  balanced = v;
  unused = λ i lt. absurd (omega arith);
  kept = λ i le. refl;
}
close_below-IsEmptied others (suc n) s h v =
    close_slot-IsEmptied others n s (close_below n s) _ (omega arith) refl
      (close_below-IsEmptied others n s (omega arith) v)

-- If every count agrees, then after close_all_fds all 128 descriptors are unused and the count of
-- every file but stdin and stdout is the number of descriptors of the other processes.
pub close_all_fds_lem :
    (others : ℕ → ℕ) (s : Files)
    → IsBalanced others s
    → IsEmptied others proc_max_file s (close_all_fds s)
unfolding close_all_fds
close_all_fds_lem others s v = close_below-IsEmptied others proc_max_file s (omega arith) v
