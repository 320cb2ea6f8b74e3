-- ===== src/Pipe/Tests.antt =====
-- Pipes on concrete buffers.
use operating_system_osv.Base.{
  ℕ, ◌+◌, ◌≡◌, refl, [], ◌∷◌, none, some, arith, length, replicate, inl, true, end_reached, nomem,
}
use operating_system_osv.Bbq.{Bbq}
use operating_system_osv.Bbq.Refine.{IsValid, contents}
use operating_system_osv.Pipe.{Pipe, failed, pipe_read, pipe_write, pipe_close, pipe_alloc}
use operating_system_osv.Pipe.Reading.{Reads, Sleeps}
use operating_system_osv.Pipe.Writing.{Writes, Fills}
use operating_system_osv.Pipe.Transfer.{
  pipe_of, Passes, pipe_read_returns, pipe_read-Sleeps, pipe_write_returns, pipe_write_sleeps,
  pipe_read-pipe_write, pipe_close_lem, pipe_alloc_no_ring, pipe_alloc_conserves, kept, count_some,
}

-- Two bytes held, and room for 510.
abbrev two_held : Bbq
two_held = record { items = 8 ∷ 9 ∷ replicate 510 0; front = 0; next_empty = 2 }

-- One place left.
abbrev nearly_full : Bbq
nearly_full = record { items = replicate 512 7; front = 0; next_empty = 511 }

abbrev empty : Bbq
empty = record { items = replicate 512 0; front = 600; next_empty = 600 }

two_held-IsValid : IsValid two_held
two_held-IsValid = record {
  size = refl;
  ordered = omega arith;
  bounded = omega arith;
  unwrapped = omega arith;
}

nearly_full-IsValid : IsValid nearly_full
nearly_full-IsValid = record {
  size = refl;
  ordered = omega arith;
  bounded = omega arith;
  unwrapped = omega arith;
}

empty-IsValid : IsValid empty
empty-IsValid = record {
  size = refl;
  ordered = omega arith;
  bounded = omega arith;
  unwrapped = omega arith;
}

pipe_read_returns_example :
    Reads 5 (contents two_held) (pipe_read (some (pipe_of two_held (some 0) none)) 5)
pipe_read_returns_example = pipe_read_returns two_held (some 0) none 5 two_held-IsValid (inl refl)

pipe_read-Sleeps_example :
    Sleeps (contents two_held) (pipe_read (some (pipe_of two_held (some 0) (some 1))) 5)
pipe_read-Sleeps_example = pipe_read-Sleeps two_held (some 0) 1 5 two_held-IsValid (omega arith)

pipe_write_returns_example :
    Writes
      (4 ∷ 6 ∷ [])
      (contents two_held)
      (pipe_write (some (pipe_of two_held (some 0) (some 1))) (4 ∷ 6 ∷ []))
pipe_write_returns_example =
    pipe_write_returns two_held 0 (some 1) (4 ∷ 6 ∷ []) two_held-IsValid (omega arith) (omega arith)

pipe_write_sleeps_example :
    Fills
      (4 ∷ 6 ∷ [])
      (contents nearly_full)
      (pipe_write (some (pipe_of nearly_full (some 0) (some 1))) (4 ∷ 6 ∷ []))
pipe_write_sleeps_example =
    pipe_write_sleeps nearly_full 0 (some 1) (4 ∷ 6 ∷ []) nearly_full-IsValid (omega arith)
      (omega arith)

pipe_read-pipe_write_example :
    Passes (4 ∷ 6 ∷ []) (pipe_write (some (pipe_of empty (some 0) (some 1))) (4 ∷ 6 ∷ []))
pipe_read-pipe_write_example =
    pipe_read-pipe_write empty (4 ∷ 6 ∷ []) empty-IsValid refl (omega arith) (omega arith)

pipe_close_lem_example :
    Reads 1
      (contents two_held)
      (pipe_read (some (pipe_close 1 (pipe_of two_held (some 0) (some 1))).0) 1)
    × (pipe_write (some (pipe_close 0 (pipe_of two_held (some 0) (some 1))).0) (4 ∷ [])
        ≡ failed end_reached)
    × (pipe_close 1 (pipe_of two_held (some 0) (some 1)) ≡ (pipe_of two_held (some 0) none, true))
    × (pipe_close 0 (pipe_of two_held (some 0) (some 1)) ≡ (pipe_of two_held none (some 1), true))
pipe_close_lem_example = pipe_close_lem two_held 0 1 1 (4 ∷ []) two_held-IsValid (omega arith)

pipe_alloc_conserves_example :
    kept (pipe_alloc true true (some empty) (some 4) none).0
      + length (pipe_alloc true true (some empty) (some 4) none).1
    ≡ 1 + count_some (some empty) + count_some {A = ℕ} (some 4) + count_some {A = ℕ} none
pipe_alloc_conserves_example = pipe_alloc_conserves (some empty) (some 4) none

abbrev no_ring : Pipe
no_ring = record { buffer = none; read_file = some 4; write_file = some 5 }

pipe_alloc_no_ring_example :
    (pipe_read (some no_ring) 3 ≡ failed nomem)
    × (pipe_write (some no_ring) (4 ∷ []) ≡ failed nomem)
unfolding pipe_alloc
pipe_alloc_no_ring_example = pipe_alloc_no_ring 4 5 3 (4 ∷ []) no_ring refl
