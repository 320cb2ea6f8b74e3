-- ===== src/Fd/Counts.antt =====
-- Reference counts: `f_ref` of every file but stdin and stdout is the number of descriptors, over
-- all processes, that refer to it.
use operating_system_osv.Base.{
  ℕ, zero, suc, ◌+◌, ◌^◌, ◌≤◌, ◌<◌, ◌≡◌, ap, Option, none, some, Bool, true, false, leb, ◌==◌,
  if◌then◌else◌, update, arith, inval, error, sum_below, sum_below_congr, sum_below-update,
}
use operating_system_osv.Fd.{
  proc_max_file, Table, Files, fs_reopen_file, fs_close_file, sys_dup, dup_at, dup_to,
}
use operating_system_osv.Fd.Lowest.{IsLowest, find_lowest_null_fd_lem}

abbrev pub refers : ℕ → Option ℕ → ℕ
refers f none = 0
refers f (some g) = if f == g then 1 else 0

-- How many of the first `n` descriptors refer to `f`.
abbrev pub uses_below : ℕ → ℕ → Table → ℕ
uses_below n f t = sum_below n (λ i. refers f (t i))

abbrev pub uses : ℕ → Table → ℕ
uses f t = uses_below proc_max_file f t

-- `others f` descriptors of other processes refer to `f`.
pub record IsBalanced (others : ℕ → ℕ) (s : Files) : Type 0 where
  pub few : (f : ℕ) → others f + proc_max_file < 2 ^ 31
  pub counted : (f : ℕ) → 2 ≤ f → s.ref f ≡ others f + uses f s.fds

pub refers-le : (f : ℕ) (o : Option ℕ) → refers f o ≤ 1
refers-le f none = omega arith
refers-le f (some g) = ground arith

pub uses_below-le : (n f : ℕ) (t : Table) → uses_below n f t ≤ n
unfolding sum_below
uses_below-le zero f t = omega arith
uses_below-le (suc n) f t = omega (arith, uses_below-le n f t, refers-le f (t n))

pub uses_below-update :
    (n f fd : ℕ) (t : Table) (o : Option ℕ)
    → fd < n
    → uses_below n f (update t fd o) + refers f (t fd) ≡ uses_below n f t + refers f o
uses_below-update n f fd t o h =
    let e : uses_below n f (update t fd o)
        ≡ sum_below n (update (λ i. refers f (t i)) fd (refers f o)) =
      sum_below_congr n _ _ (λ i lt. ground arith) in
    omega (arith, e, sum_below-update n (λ i. refers f (t i)) fd (refers f o) h)

-- One more reference to `f`, in `fds` and in `ref`, or one fewer.
reopen-counted :
    (others : ℕ → ℕ) (f g n : ℕ) (s : Files)
    → others g + proc_max_file < 2 ^ 31
    → s.ref g ≡ others g + uses g s.fds
    → n < proc_max_file
    → s.fds n ≡ none
    → (fs_reopen_file f (record s { fds = update s.fds n (some f) })).ref g
      ≡ others g + uses g (update s.fds n (some f))
unfolding fs_reopen_file
reopen-counted others f g n s b c h e = ground (
  arith,
  uses_below-update proc_max_file g n s.fds (some f) h,
  uses_below-le proc_max_file g s.fds,
  ap (refers g) e,
)

pub close-counted :
    (others : ℕ → ℕ) (f g n : ℕ) (s : Files)
    → others g + proc_max_file < 2 ^ 31
    → s.ref g ≡ others g + uses g s.fds
    → n < proc_max_file
    → s.fds n ≡ some f
    → (fs_close_file f s).ref g ≡ others g + uses g (update s.fds n none)
unfolding fs_close_file
close-counted others f g n s b c h e = ground (
  arith,
  uses_below-update proc_max_file g n s.fds none h,
  uses_below-le proc_max_file g s.fds,
  ap (refers g) e,
)

dup_to-IsBalanced :
    (others : ℕ → ℕ) (f : ℕ) (s : Files) (o : Option ℕ)
    → IsBalanced others s
    → IsLowest 128 0 s.fds o
    → IsBalanced others (dup_to f s o).1
unfolding dup_to fs_reopen_file
dup_to-IsBalanced others f s none v x = v
dup_to-IsBalanced others f s (some n) v x = record {
  few = v.few;
  counted = λ g k. reopen-counted others f g n s (v.few g) (v.counted g k) (omega (arith, x.1)) x.2;
}

-- sys_dup keeps the reference count of every file but stdin and stdout, whose counts decide nothing,
-- equal to the number of descriptors that refer to it, if fewer than 2^31 - 128 of other processes
-- do.
pub sys_dup-IsBalanced :
    (others : ℕ → ℕ) (fd : ℕ) (s : Files) → IsBalanced others s → IsBalanced others (sys_dup fd s).1
unfolding sys_dup dup_at
sys_dup-IsBalanced others fd s v = in_range (leb proc_max_file fd)
  where
    at : (o : Option ℕ) → IsBalanced others (dup_at s o).1
    at none = v
    at (some f) = dup_to-IsBalanced others f s _ v (find_lowest_null_fd_lem s.fds).1

    in_range :
        (b : Bool) → IsBalanced others (if b then (error inval, s) else dup_at s (s.fds fd)).1
    in_range true = v
    in_range false = at (s.fds fd)
