-- ===== src/Pipe.antt =====
-- kernel/pipe.c and include/kernel/pipe.h. A call of pipe_read or pipe_write is followed until it
-- returns or until it must sleep in bbq_remove or bbq_insert; `blocked` then says what it has done.
-- The allocators' answers are arguments of `pipe_alloc`.
pub mod Reading
pub mod Writing
pub mod Transfer
mod Tests
use operating_system_osv.Base.{
  ℕ, zero, suc, List, [], ◌∷◌, ◌++◌, Option, none, some, Bool, true, false, ◌==◌, if◌then◌else◌,
  Err, nomem, end_reached,
}
use operating_system_osv.Bbq.{
  Bbq, Outcome, done, waits, fault, bbq_insert, bbq_remove, bbq_is_empty,
}

-- `pipe_t`: the files are the numbers of `struct file` objects, `none` is NULL.
pub record Pipe : Type 0 where
  pub buffer : Option Bbq
  pub read_file : Option ℕ
  pub write_file : Option ℕ

-- A call that returned a count (the bytes read, or how many were written) or an error, one that
-- sleeps, or one that accessed memory out of range. The buffer goes with it.
pub data Call (A : Type 0) : Type 0 where
  returned : A → Bbq → Call A
  blocked : A → Bbq → Call A
  failed : Err → Call A
  broken : Call A

abbrev pub map_call : {A B : Type 0} → (A → B) → Call A → Call B
map_call f (returned a q) = returned (f a) q
map_call f (blocked a q) = blocked (f a) q
map_call f (failed e) = failed e
map_call f broken = broken

-- `while (bytesRead < count) buffer[bytesRead++] = bbq_remove(pipe->buffer)`, on the rounds left.
pub read_all : ℕ → Bbq → Call (List ℕ)
read_all zero q = returned [] q
read_all (suc n) q = elim (bbq_remove q) [
  | done (x, q') ↦ map_call (λ xs. x ∷ xs) (read_all n q')
  | waits ↦ blocked [] q
  | fault ↦ broken
]

-- The same loop with `&& !bbq_is_empty(pipe->buffer)`.
pub read_some : ℕ → Bbq → Call (List ℕ)
read_some zero q = returned [] q
read_some (suc n) q = elim (bbq_is_empty q) [
  | true ↦ returned [] q
  | false ↦ elim (bbq_remove q) [
    | done (x, q') ↦ map_call (λ xs. x ∷ xs) (read_some n q')
    | waits ↦ blocked [] q
    | fault ↦ broken
  ]
]

pub write_all : List ℕ → Bbq → Call ℕ
write_all [] q = returned 0 q
write_all (x ∷ xs) q = elim (bbq_insert q x) [
  | done q' ↦ map_call suc (write_all xs q')
  | waits ↦ blocked 0 q
  | fault ↦ broken
]

pub read_from : Option ℕ → ℕ → Bbq → Call (List ℕ)
unfolding read_all read_some
read_from (some _) count q = read_all count q
read_from none count q = read_some count q

-- The argument is `file->info`, NULL after the file's end was closed. -1 is ERR_NOMEM's code.
pub pipe_read : Option Pipe → ℕ → Call (List ℕ)
unfolding read_from
pipe_read none count = failed nomem
pipe_read (some p) count = elim p.buffer [
  | none ↦ failed nomem
  | some q ↦ read_from p.write_file count q
]

pub write_to : Option ℕ → List ℕ → Bbq → Call ℕ
unfolding write_all
write_to none bytes q = failed end_reached
write_to (some _) bytes q = write_all bytes q

pub pipe_write : Option Pipe → List ℕ → Call ℕ
unfolding write_to
pipe_write none bytes = failed nomem
pipe_write (some p) bytes = elim p.buffer [
  | none ↦ failed nomem
  | some q ↦ write_to p.read_file bytes q
]

same_file : ℕ → Option ℕ → Bool
same_file f none = false
same_file f (some g) = f == g

-- The pipe after pipe_close, and whether `file->info` was cleared.
pub pipe_close : ℕ → Pipe → Pipe × Bool
unfolding same_file
pipe_close f p =
    if same_file f p.read_file
    then (record p { read_file = none }, true)
    else if same_file f p.write_file
    then (record p { write_file = none }, true)
    else (p, false)

-- What pipe_alloc hands back to the allocators.
pub data Freed : Type 0 where
  pipe_struct ring file_struct : Freed

abbrev freed_file : Option ℕ → List Freed
freed_file none = []
freed_file (some _) = file_struct ∷ []

-- pipe_free
abbrev freed_ring : Option Bbq → List Freed
freed_ring none = []
freed_ring (some _) = ring ∷ []

pub pipe_free : Option Bbq → List Freed
pipe_free buffer = freed_ring buffer ++ (pipe_struct ∷ [])

both : Option Bbq → Option ℕ → Option ℕ → Option Pipe × List Freed
unfolding pipe_free
both buffer (some r) (some w) =
    (some (record { buffer = buffer; read_file = some r; write_file = some w }), [])
both buffer r w = (none, freed_file r ++ (freed_file w ++ pipe_free buffer))

-- `got` says whether kmalloc gave a struct, and `stale` whether its `buffer` field, tested before
-- it is set, is nonzero; then what bbq_init and the two calls of fs_alloc_file return.
pub pipe_alloc : Bool → Bool → Option Bbq → Option ℕ → Option ℕ → Option Pipe × List Freed
unfolding both
pipe_alloc false stale buffer r w = (none, [])
pipe_alloc true false buffer r w = (none, pipe_struct ∷ [])
pipe_alloc true true buffer r w = both buffer r w
