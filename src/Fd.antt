-- ===== src/Fd.antt =====
-- File descriptors: find_lowest_null_fd, sys_open, sys_close, sys_dup and sys_pipe of
-- kernel/syscall.c, the descriptor loops of duplicate_process_state and close_all_fds of
-- kernel/proc.c, and fs_reopen_file and fs_close_file of kernel/fs/fs.c.
-- A `struct file` is a number; 0 and 1 are `stdin` and `stdout`. `f_ref` is the 32-bit pattern of
-- an int. Descriptors are the numbers below PROC_MAX_FILE; an argument that is negative as an int
-- is at least 2^31 as a pattern.
pub mod Lowest
pub mod Counts
pub mod Closing
mod Tests
use operating_system_osv.Base.{
  ℕ, zero, suc, ◌+◌, ◌-◌, ◌%◌, ◌^◌, List, [], ◌∷◌, ◌++◌, Option, none, some, Bool, true, false, leb,
  ltb, ◌==◌, ◌&&◌, ◌||◌, if◌then◌else◌, update, Err, nomem, inval, SysRet, value, error,
}

abbrev pub proc_max_file : ℕ
proc_max_file = 128

abbrev pub Table : Type 0
Table = ℕ → Option ℕ

-- The descriptors of the current process, the reference counts of all files, and the files whose
-- last reference is gone: their inode is released, their `close` called and their struct freed.
pub record Files : Type 0 where
  pub fds : Table
  pub ref : ℕ → ℕ
  pub released : List ℕ

-- The loop of find_lowest_null_fd from `fd` on, on the rounds left; `none` is -1.
pub find_null_from : ℕ → ℕ → Table → Option ℕ
find_null_from zero fd t = none
find_null_from (suc n) fd t =
    let rest = find_null_from n (fd + 1) t in elim (t fd) [ none ↦ some fd | some _ ↦ rest ]

pub find_lowest_null_fd : Table → Option ℕ
unfolding find_null_from
find_lowest_null_fd t = find_null_from (proc_max_file - 2) 2 t

pub find_lowest_null_fd_from_0 : Table → Option ℕ
unfolding find_null_from
find_lowest_null_fd_from_0 t = find_null_from proc_max_file 0 t

pub fs_reopen_file : ℕ → Files → Files
fs_reopen_file f s = record s { ref = update s.ref f ((s.ref f + 1) % 2 ^ 32) }

-- `file->f_ref > 0 || file == &stdin || file == &stdout`, after the decrement.
abbrev pub stays_open : ℕ → ℕ → Bool
stays_open f r = (ltb 0 r && ltb r (2 ^ 31)) || ltb f 2

pub fs_close_file : ℕ → Files → Files
fs_close_file f s =
    let r = (s.ref f + 2 ^ 32 - 1) % 2 ^ 32 in
    let s' = record s { ref = update s.ref f r } in
    if stays_open f r then s' else record s' { released = f ∷ s.released }

close_at : ℕ → Files → Option ℕ → SysRet × Files
unfolding fs_close_file
close_at fd s none = (error inval, s)
close_at fd s (some f) =
    let s' = fs_close_file f s in (value 0, record s' { fds = update s'.fds fd none })

pub sys_close : ℕ → Files → SysRet × Files
unfolding close_at
sys_close fd s = if leb proc_max_file fd then (error inval, s) else close_at fd s (s.fds fd)

dup_to : ℕ → Files → Option ℕ → SysRet × Files
unfolding fs_reopen_file
dup_to f s none = (error nomem, s)
dup_to f s (some new_fd) =
    (value new_fd, fs_reopen_file f (record s { fds = update s.fds new_fd (some f) }))

dup_at : Files → Option ℕ → SysRet × Files
unfolding dup_to
dup_at s none = (error inval, s)
dup_at s (some f) = dup_to f s (find_lowest_null_fd_from_0 s.fds)

pub sys_dup : ℕ → Files → SysRet × Files
unfolding dup_at
sys_dup fd s = if leb proc_max_file fd then (error inval, s) else dup_at s (s.fds fd)

-- What fs_open_file answers: a file, whose `f_ref` fs_alloc_file has set to 1, or an error.
pub data Opened : Type 0 where
  file : ℕ → Opened
  failed : Err → Opened

open_at : Opened → Files → ℕ → SysRet × Files
open_at (failed e) s fd = (error e, s)
open_at (file f) s fd =
    (value fd, record s { fds = update s.fds fd (some f); ref = update s.ref f 1 })

open_found : Opened → Files → Option ℕ → SysRet × Files
unfolding open_at
open_found o s none = (error nomem, s)
open_found o s (some fd) = open_at o s fd

-- sys_open, behind the check of the path's address.
pub sys_open : Opened → Files → SysRet × Files
unfolding open_found
sys_open o s = open_found o s (find_lowest_null_fd s.fds)

-- The result of sys_pipe: the two descriptors written to `fds`, or ERR_NOMEM.
pub data PipeRet : Type 0 where
  ends : ℕ → ℕ → PipeRet
  no_ends : PipeRet

pipe_write_fd : ℕ → ℕ → Files → Option ℕ → PipeRet × Files
pipe_write_fd w read_fd s none = (no_ends, record s { fds = update s.fds read_fd none })
pipe_write_fd w read_fd s (some write_fd) =
    (ends read_fd write_fd, record s { fds = update s.fds write_fd (some w) })

pipe_read_fd : ℕ → ℕ → Files → Option ℕ → PipeRet × Files
unfolding pipe_write_fd
pipe_read_fd r w s none = (no_ends, s)
pipe_read_fd r w s (some read_fd) =
    let s' = record s { fds = update s.fds read_fd (some r) } in
    pipe_write_fd w read_fd s' (find_lowest_null_fd_from_0 s'.fds)

-- sys_pipe after pipe_alloc has given the files `r` and `w`, with `f_ref` 1 each.
pub sys_pipe : ℕ → ℕ → Files → PipeRet × Files
unfolding pipe_read_fd
sys_pipe r w s =
    pipe_read_fd r w (record s { ref = update (update s.ref r 1) w 1 })
      (find_lowest_null_fd_from_0 s.fds)

reopen_at : Files → Option ℕ → Files
unfolding fs_reopen_file
reopen_at s none = s
reopen_at s (some f) = fs_reopen_file f s

-- The loop of duplicate_process_state over descriptors `0` to `n - 1`: the child's table is the
-- parent's, and each file is reopened.
pub reopen_all : ℕ → Table → Files → Files
unfolding reopen_at
reopen_all zero t s = s
reopen_all (suc n) t s = reopen_at (reopen_all n t s) (t n)

close_slot : ℕ → Files → Option ℕ → Files
unfolding fs_close_file
close_slot fd s none = s
close_slot fd s (some f) = let s' = fs_close_file f s in record s' { fds = update s'.fds fd none }

-- The loop of close_all_fds, over descriptors `0` to `n - 1`.
pub close_below : ℕ → Files → Files
unfolding close_slot
close_below zero s = s
close_below (suc n) s = let s' = close_below n s in close_slot n s' (s'.fds n)

pub close_all_fds : Files → Files
unfolding close_below
close_all_fds s = close_below proc_max_file s
