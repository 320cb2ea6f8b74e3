-- ===== src/Fd/Lowest.antt =====
-- The search for a descriptor, and what sys_dup, sys_open and sys_pipe do to the table.
use operating_system_osv.Base.{
  ℕ, zero, suc, ◌+◌, ◌-◌, ◌≤◌, ◌<◌, ◌≡◌, ◌≢◌, refl, subst, ◌⊎◌, inl, inr, Option, none, some, Bool,
  true, false, leb, if◌then◌else◌, update, arith, nomem, inval, SysRet, value, error,
}
use operating_system_osv.Fd.{
  proc_max_file, Table, Files, find_null_from, find_lowest_null_fd, find_lowest_null_fd_from_0,
  sys_dup, dup_at, dup_to, fs_reopen_file, PipeRet, ends, no_ends,
}

abbrev IsUsed : Option ℕ → Type 0
IsUsed none = ⊥
IsUsed (some _) = Unit

-- The `k` descriptors from `lo` on are in use.
abbrev pub AllUsed : ℕ → ℕ → Table → Type 0
AllUsed zero lo t = Unit
AllUsed (suc k) lo t = IsUsed (t lo) × AllUsed k (lo + 1) t

-- The lowest unused descriptor of the `n` from `lo` on, or none if all are in use.
abbrev pub IsLowest : ℕ → ℕ → Table → Option ℕ → Type 0
IsLowest n lo t none = AllUsed n lo t
IsLowest n lo t (some fd) = (lo ≤ fd) × (fd < lo + n) × (t fd ≡ none) × AllUsed (fd - lo) lo t

find_null_from-IsLowest : (n lo : ℕ) (t : Table) → IsLowest n lo t (find_null_from n lo t)
unfolding find_null_from
find_null_from-IsLowest zero lo t = tt
find_null_from-IsLowest (suc n) lo t =
    at_lo (t lo) refl (find_null_from n (lo + 1) t) (find_null_from-IsLowest n (lo + 1) t)
  where
    further : (r : Option ℕ) → IsUsed (t lo) → IsLowest n (lo + 1) t r → IsLowest (suc n) lo t r
    further none u x = (u, x)
    further (some fd) u x =
        let e : suc (fd - (lo + 1)) ≡ fd - lo = omega arith in
        (omega arith, omega arith, x.2, subst (λ k. AllUsed k lo t) e (u, x.3))

    at_lo :
        (o : Option ℕ)
        → t lo ≡ o
        → (r : Option ℕ) → IsLowest n (lo + 1) t r
        → IsLowest (suc n) lo t (elim o [ none ↦ some lo | some _ ↦ r ])
    at_lo none e r x = (
      omega arith,
      omega arith,
      e,
      let z : zero ≡ lo - lo = omega arith in subst (λ k. AllUsed k lo t) z tt,
    )
    at_lo (some f) e r x = further r (rw e tt) x

-- find_lowest_null_fd gives the lowest unused descriptor from 2 to 127, and -1 only if there is
-- none; find_lowest_null_fd_from_0 the lowest from 0.
pub find_lowest_null_fd_lem :
    (t : Table)
    → IsLowest 126 2 t (find_lowest_null_fd t) × IsLowest 128 0 t (find_lowest_null_fd_from_0 t)
unfolding find_lowest_null_fd find_lowest_null_fd_from_0
find_lowest_null_fd_lem t = (find_null_from-IsLowest 126 2 t, find_null_from-IsLowest 128 0 t)

-- What sys_dup answers: the lowest unused descriptor, now the same file; or an error and no change.
abbrev pub Dups : ℕ → Files → SysRet × Files → Type 0
Dups fd s (value n, s') =
    (fd < proc_max_file)
    × IsUsed (s.fds fd)
    × IsLowest 128 0 s.fds (some n)
    × (s'.fds ≡ update s.fds n (s.fds fd))
Dups fd s (error nomem, s') =
    (s' ≡ s) × (fd < proc_max_file) × IsUsed (s.fds fd) × AllUsed 128 0 s.fds
Dups fd s (error inval, s') = (s' ≡ s) × ((proc_max_file ≤ fd) ⊎ (s.fds fd ≡ none))
Dups fd s (error _, s') = ⊥

dup_to-Dups :
    (fd f : ℕ) (s : Files) (o : Option ℕ)
    → fd < proc_max_file
    → s.fds fd ≡ some f
    → IsLowest 128 0 s.fds o
    → Dups fd s (dup_to f s o)
unfolding dup_to fs_reopen_file
dup_to-Dups fd f s none h e x = (refl, h, rw e tt, x)
dup_to-Dups fd f s (some n) h e x = (h, rw e tt, x, rw e refl)

-- sys_dup makes the lowest unused descriptor refer to the file of `fd` and changes no other
-- descriptor; it fails with ERR_INVAL exactly for a descriptor out of range or not open, and with
-- ERR_NOMEM for any other exactly if all 128 are in use, and then changes nothing.
pub sys_dup-Dups : (fd : ℕ) (s : Files) → Dups fd s (sys_dup fd s)
unfolding sys_dup dup_at
sys_dup-Dups fd s = in_range (leb proc_max_file fd) refl
  where
    at : (o : Option ℕ) → s.fds fd ≡ o → fd < proc_max_file → Dups fd s (dup_at s o)
    at none e h = (refl, inr e)
    at (some f) e h = dup_to-Dups fd f s _ h e (find_lowest_null_fd_lem s.fds).1

    in_range :
        (b : Bool)
        → leb proc_max_file fd ≡ b
        → Dups fd s (if b then (error inval, s) else dup_at s (s.fds fd))
    in_range true e = (refl, inl (ground arith))
    in_range false e = at (s.fds fd) refl (ground arith)

-- No descriptor is unused, or none is once the lowest one has been taken.
abbrev pub AtMostOne : ℕ → Table → Type 0
AtMostOne r t =
    AllUsed 128 0 t ⊎ ((a : ℕ) × IsLowest 128 0 t (some a) × AllUsed 128 0 (update t a (some r)))

-- What sys_pipe answers: two different descriptors for the two files, the lowest unused one and the
-- lowest unused after that; or no change to the table, in which none or just one is unused.
abbrev pub Pipes : ℕ → ℕ → Files → PipeRet × Files → Type 0
Pipes r w s (ends a b, s') =
    (a ≢ b)
    × IsLowest 128 0 s.fds (some a)
    × IsLowest 128 0 (update s.fds a (some r)) (some b)
    × (s'.fds ≡ update (update s.fds a (some r)) b (some w))
Pipes r w s (no_ends, s') = ((i : ℕ) → s'.fds i ≡ s.fds i) × AtMostOne r s.fds
