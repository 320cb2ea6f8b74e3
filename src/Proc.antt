-- ===== src/Proc.antt =====
-- Processes: proc_init, duplicate_process_state, proc_fork, proc_wait and proc_exit of
-- kernel/proc.c. A `struct proc` is known by a number, its address. The answers of the allocators,
-- of fs_get_inode and of as_copy_as are arguments.
pub mod Waiting
pub mod Lifecycle
mod Tests
use operating_system_osv.Base.{
  ℕ, zero, suc, ◌+◌, ◌-◌, ◌%◌, ◌^◌, List, [], ◌∷◌, ◌++◌, Option, none, some, Bool, true, false,
  ◌==◌, ◌&&◌, ◌||◌, if◌then◌else◌, update, erase,
}
use operating_system_osv.Fd.{proc_max_file, Table, Files, reopen_all, close_all_fds}

pub record Proc : Type 0 where
  pub pid : ℕ
  pub parent : Option ℕ
  pub has_exited : Bool
  pub exit_status : ℕ
  pub file_descriptors : Table

-- All structs, the process table, pid_allocator, and the reference counts of the files with the
-- files released so far. `pid` and `pid_allocator` are 32-bit patterns.
pub record World : Type 0 where
  pub proc : ℕ → Proc
  pub ptable : List ℕ
  pub pid_allocator : ℕ
  pub ref : ℕ → ℕ
  pub released : List ℕ

abbrev pub status_alive : ℕ
status_alive = 200212203

abbrev pub any_child : ℕ
any_child = 2 ^ 32 - 1

-- stdin and stdout.
pub initial_fds : Table
initial_fds zero = some 0
initial_fds (suc zero) = some 1
initial_fds (suc (suc _)) = none

pub set_proc : ℕ → Proc → World → World
set_proc c p w = record w { proc = update w.proc c p }

-- What process `p` sees of the files, and what it leaves.
pub files : ℕ → World → Files
files p w = record { fds = (w.proc p).file_descriptors; ref = w.ref; released = w.released }

pub put_files : ℕ → World → Files → World
put_files p w s = record w {
  proc = update w.proc p (record (w.proc p) { file_descriptors = s.fds });
  ref = s.ref;
  released = s.released;
}

-- The answers that a fork gets: of kmem_cache_alloc, as_init, fs_get_inode, as_copy_as and
-- thread_create.
pub record Answers : Type 0 where
  pub struct_at : Option ℕ
  pub as_ok : Bool
  pub inode_ok : Bool
  pub copy_ok : Bool
  pub thread_ok : Bool

-- proc_alloc takes the next pid, also when the set-up fails after it.
init_at : Answers → World → Option ℕ → Option ℕ × World
unfolding set_proc initial_fds
init_at a w none = (none, w)
init_at a w (some c) =
    let w' = record w { pid_allocator = (w.pid_allocator + 1) % 2 ^ 32 } in
    if a.as_ok && a.inode_ok
    then (
      some c,
      set_proc c
          (record {
            pid = w.pid_allocator;
            parent = none;
            has_exited = false;
            exit_status = status_alive;
            file_descriptors = initial_fds;
          })
          w',
    )
    else (none, w')

pub proc_init : Answers → World → Option ℕ × World
unfolding init_at
proc_init a w = init_at a w a.struct_at

copied : Answers → ℕ → Option ℕ × World → Option ℕ × World
unfolding put_files files
copied a parent (none, w) = (none, w)
copied a parent (some c, w) =
    let t = (w.proc parent).file_descriptors in
    if a.copy_ok
    then (some c, put_files c w (reopen_all proc_max_file t (record (files c w) { fds = t })))
    else (none, w)

pub duplicate_process_state : Answers → ℕ → World → Option ℕ × World
unfolding copied
duplicate_process_state a parent w = copied a parent (proc_init a w)

started : Answers → ℕ → Option ℕ × World → Option ℕ × World
unfolding set_proc
started a parent (none, w) = (none, w)
started a parent (some c, w) =
    let w' = set_proc c (record (w.proc c) { parent = some parent }) w in
    if a.thread_ok then (some c, w') else (none, w')

-- proc_fork up to the start of the child's thread, and the insertion into the table after it.
pub fork_child : Answers → ℕ → World → Option ℕ × World
unfolding started
fork_child a parent w = started a parent (duplicate_process_state a parent w)

pub enter_ptable : ℕ → World → World
enter_ptable c w = record w { ptable = w.ptable ++ (c ∷ []) }

listed : Option ℕ × World → Option ℕ × World
unfolding enter_ptable
listed (none, w) = (none, w)
listed (some c, w) = (some c, enter_ptable c w)

pub proc_fork : Answers → ℕ → World → Option ℕ × World
unfolding listed
proc_fork a parent w = listed (fork_child a parent w)

-- `child_proc->parent == current_proc`.
abbrev pub parent_is : ℕ → Option ℕ → Bool
parent_is current none = false
parent_is current (some q) = q == current

-- The test of proc_wait on one process.
abbrev pub is_wanted : ℕ → ℕ → Proc → Bool
is_wanted current pid p = parent_is current p.parent && ((pid == any_child) || (p.pid == pid))

-- One round of proc_wait, under ptable_lock: it reaps a child, giving its pid and its status,
-- finds no child, or goes round again.
pub data Waited : Type 0 where
  reaps : ℕ → ℕ → ℕ → Waited
  no_child : Waited
  again : Waited

pub scan : ℕ → ℕ → (ℕ → Proc) → Bool → List ℕ → Waited
scan current pid proc found [] = if found then again else no_child
scan current pid proc found (n ∷ ns) =
    let p = proc n in
    let past = scan current pid proc true ns in
    let beside = scan current pid proc found ns in
    if is_wanted current pid p
    then if p.has_exited then reaps n p.pid p.exit_status else past
    else beside

reaped : World → Waited → Waited × World
reaped w (reaps n pid status) = (reaps n pid status, record w { ptable = erase n w.ptable })
reaped w no_child = (no_child, w)
reaped w again = (again, w)

pub wait_section : ℕ → ℕ → World → Waited × World
unfolding scan reaped
wait_section current pid w = reaped w (scan current pid w.proc false w.ptable)

-- proc_exit, up to the close of the descriptors, and the notification of the parent.
pub exit_close : ℕ → World → World
unfolding put_files files
exit_close p w = put_files p w (close_all_fds (files p w))

notified : ℕ → ℕ → World → Option ℕ → World
unfolding set_proc
notified p status w none = w
notified p status w (some _) =
    set_proc p (record (w.proc p) { exit_status = status; has_exited = true }) w

pub exit_notify : ℕ → ℕ → World → World
unfolding notified
exit_notify p status w = notified p status w (w.proc p).parent

pub proc_exit : ℕ → ℕ → World → World
unfolding exit_close exit_notify
proc_exit p status w = exit_notify p status (exit_close p w)
