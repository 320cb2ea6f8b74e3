-- ===== src/Pipe/Transfer.antt =====
-- What passes through a pipe: bytes in order, partial transfers, ends of file.
use operating_system_osv.Base.{
  ℕ, ◌+◌, ◌^◌, ◌≤◌, ◌<◌, ◌≡◌, ◌≢◌, refl, List, [], Option, none, some, arith, length, ◌-◌, ◌⊎◌, inl,
  inr, subst, nomem, end_reached, true,
}
use operating_system_osv.Bbq.{Bbq, max_bbq_size}
use operating_system_osv.Bbq.Refine.{IsValid, contents, length-window}
use operating_system_osv.Pipe.{
  Pipe, Call, returned, blocked, failed, broken, read_from, write_to, pipe_read, pipe_write,
  pipe_close, pipe_alloc,
}
use operating_system_osv.Pipe.Reading.{
  Reads, Sleeps, read_all-Reads, read_all-Sleeps, read_some-Reads,
}
use operating_system_osv.Pipe.Writing.{Writes, Fills, write_all-Writes, write_all-Fills}

-- The pipe with a valid buffer `q` and the given ends.
abbrev pub pipe_of : Bbq → Option ℕ → Option ℕ → Pipe
pipe_of q r w = record { buffer = some q; read_file = r; write_file = w }

read_from-Reads :
    (w : Option ℕ) (count : ℕ) (q : Bbq)
    → IsValid q
    → (w ≡ none) ⊎ (count ≤ length (contents q))
    → Reads count (contents q) (read_from w count q)
unfolding read_from
read_from-Reads none count q v h = read_some-Reads count q _ v refl
read_from-Reads (some f) count q v (inl e) = cc
read_from-Reads (some f) count q v (inr h) = read_all-Reads count q _ v refl h

-- If the write end is closed, or if `count` bytes are held, pipe_read returns at once with the
-- first `count` bytes held, or all of them if they are fewer, and leaves the rest in order.
pub pipe_read_returns :
    (q : Bbq) (r w : Option ℕ) (count : ℕ)
    → IsValid q
    → (w ≡ none) ⊎ (count ≤ length (contents q))
    → Reads count (contents q) (pipe_read (some (pipe_of q r w)) count)
unfolding pipe_read
pipe_read_returns q r w count v h = read_from-Reads w count q v h

-- If the write end is open and fewer than `count` bytes are held, pipe_read takes them all and
-- sleeps: it makes no short read.
pub pipe_read-Sleeps :
    (q : Bbq) (r : Option ℕ) (w count : ℕ)
    → IsValid q
    → length (contents q) < count
    → Sleeps (contents q) (pipe_read (some (pipe_of q r (some w))) count)
unfolding pipe_read read_from
pipe_read-Sleeps q r w count v h = read_all-Sleeps count q _ v refl h

-- With the read end open and room for all of `bytes`, pipe_write appends them and returns their
-- number.
pub pipe_write_returns :
    (q : Bbq) (r : ℕ) (w : Option ℕ) (bytes : List ℕ)
    → IsValid q
    → q.next_empty + length bytes < 2 ^ 31
    → length (contents q) + length bytes ≤ max_bbq_size
    → Writes bytes (contents q) (pipe_write (some (pipe_of q (some r) w)) bytes)
unfolding pipe_write write_to
pipe_write_returns q r w bytes v u h = write_all-Writes bytes q _ v refl u h

-- With the read end open and too little room, pipe_write appends as many bytes as fit and sleeps
-- with the buffer full.
pub pipe_write_sleeps :
    (q : Bbq) (r : ℕ) (w : Option ℕ) (bytes : List ℕ)
    → IsValid q
    → q.next_empty + length bytes < 2 ^ 31
    → max_bbq_size < length (contents q) + length bytes
    → Fills bytes (contents q) (pipe_write (some (pipe_of q (some r) w)) bytes)
unfolding pipe_write write_to
pipe_write_sleeps q r w bytes v u h =
    write_all-Fills bytes q _ v refl
      (omega (arith, length-window q.items q.front (q.next_empty - q.front))) u h

-- What a writer and then a reader see: `bytes` written, in a call that returned the pipe `q'`.
abbrev pub Passes : List ℕ → Call ℕ → Type 0
Passes bytes (returned n q') =
    (n ≡ length bytes) × Reads n bytes (pipe_read (some (pipe_of q' (some 0) (some 1))) n)
Passes bytes _ = ⊥

after_write : (bytes : List ℕ) (c : Call ℕ) → Writes bytes [] c → Passes bytes c
after_write bytes (returned n q') w = (
  w.0,
  subst (λ xs. Reads n xs (pipe_read (some (pipe_of q' (some 0) (some 1))) n)) w.1
      (pipe_read_returns q' (some 0) (some 1) n w.2 (inr (rw w.1 (omega (arith, w.0))))),
)
after_write bytes (blocked n q') w = w
after_write bytes (failed e) w = w
after_write bytes broken w = w

-- Up to 512 bytes written to an empty pipe with both ends open come back, the same bytes in the
-- same order, from a read of as many; neither call sleeps. The ring is valid, and no more than
-- 2^31 - 1 bytes have gone into it since it was made, these ones included.
pub pipe_read-pipe_write :
    (q : Bbq) (bytes : List ℕ)
    → IsValid q
    → contents q ≡ []
    → q.next_empty + length bytes < 2 ^ 31
    → length bytes ≤ max_bbq_size
    → Passes bytes (pipe_write (some (pipe_of q (some 0) (some 1))) bytes)
pipe_read-pipe_write q bytes v e u h = after_write bytes _ (
    subst (λ xs. Writes bytes xs (pipe_write (some (pipe_of q (some 0) (some 1))) bytes)) e
      (pipe_write_returns q 0 (some 1) bytes v u (rw e (omega arith))))

-- After pipe_close of the write end, a read of any size returns what is held up to that size and
-- never sleeps; after pipe_close of the read end, every write is refused with ERR_END. Each close
-- leaves the other end as it was.
pub pipe_close_lem :
    (q : Bbq) (r w count : ℕ) (bytes : List ℕ)
    → IsValid q
    → r ≢ w
    → Reads count
        (contents q)
        (pipe_read (some (pipe_close w (pipe_of q (some r) (some w))).0) count)
      × (pipe_write (some (pipe_close r (pipe_of q (some r) (some w))).0) bytes
          ≡ failed end_reached)
      × (pipe_close w (pipe_of q (some r) (some w)) ≡ (pipe_of q (some r) none, true))
      × (pipe_close r (pipe_of q (some r) (some w)) ≡ (pipe_of q none (some w), true))
unfolding pipe_close
pipe_close_lem q r w count bytes v ne = (
  rw closed_w (pipe_read_returns q (some r) none count v (inl refl)),
  rw closed_r (unfold pipe_write write_to in refl),
  closed_w,
  closed_r,
)
  where
    closed_w : pipe_close w (pipe_of q (some r) (some w)) ≡ (pipe_of q (some r) none, true)
    closed_w = ground arith

    closed_r : pipe_close r (pipe_of q (some r) (some w)) ≡ (pipe_of q none (some w), true)
    closed_r = ground arith

-- If only bbq_init fails, every pipe that pipe_alloc returns refuses every read and write.
pub pipe_alloc_no_ring :
    (r w count : ℕ) (bytes : List ℕ) (p : Pipe)
    → (pipe_alloc true true none (some r) (some w)).0 ≡ some p
    → (pipe_read (some p) count ≡ failed nomem) × (pipe_write (some p) bytes ≡ failed nomem)
unfolding pipe_alloc pipe_read pipe_write
pipe_alloc_no_ring r w count bytes p e = ground arith

abbrev pub count_some {ℓ} : {A : Type ℓ} → Option A → ℕ
count_some none = 0
count_some (some _) = 1

-- The objects that a pipe keeps: its struct, its ring and its files.
abbrev pub kept : Option Pipe → ℕ
kept none = 0
kept (some p) = 1 + count_some p.buffer + count_some p.read_file + count_some p.write_file

-- With the struct allocated and its stale `buffer` field nonzero, each object that the allocators
-- gave is either kept by the pipe returned or given back.
pub pipe_alloc_conserves :
    (buffer : Option Bbq) (r w : Option ℕ)
    → kept (pipe_alloc true true buffer r w).0 + length (pipe_alloc true true buffer r w).1
      ≡ 1 + count_some buffer + count_some r + count_some w
unfolding pipe_alloc
pipe_alloc_conserves none none none = refl
pipe_alloc_conserves none none (some w) = refl
pipe_alloc_conserves none (some r) none = refl
pipe_alloc_conserves none (some r) (some w) = refl
pipe_alloc_conserves (some q) none none = refl
pipe_alloc_conserves (some q) none (some w) = refl
pipe_alloc_conserves (some q) (some r) none = refl
pipe_alloc_conserves (some q) (some r) (some w) = refl
