-- ===== src/Journal.antt =====
-- The journal of kernel/fs/jbd.c on the block cache, for a super block whose journal_bmap is
-- sfs_journal_bmap: the block `lb` of the journal is `s_journal_start + lb`.
pub mod Writing
pub mod Phases
pub mod Header
pub mod Applying
pub mod Atomic
pub mod Logging
pub mod Retry
mod Tests
use operating_system_osv.Base.{
  ℕ, zero, suc, ◌+◌, List, [], ◌∷◌, ◌++◌, Bool, true, false, ltb, leb, ◌==◌, ◌&&◌, ◌||◌, not,
  if◌then◌else◌, length, update, Option, none, some,
}
use operating_system_osv.Disk.{
  Dev, M, Res, ok, nomem, stuck, panicked, bind, ◌>>=◌, ◌>>◌, pure, kassert, lock_blk, unlock_blk,
  bdev_get_blk, bdev_release_blk, bdev_write_blk, fill_buffer,
}
use operating_system_osv.Disk.Words.{put_word, put_words, get_word}

abbrev pub journal_size : ℕ
journal_size = 128

abbrev pub header_blk : ℕ
header_blk = 0

abbrev pub bmap_start_blk : ℕ
bmap_start_blk = 1

-- BMAP_BLKS is 1: 128 words of 4 bytes fill a block of 512.
abbrev pub jdata_start_blk : ℕ
jdata_start_blk = 2

-- `enabled`, whether `state` is BUSY, and the blocks of `datablks` below `next_index`.
pub record Journal : Type 0 where
  pub enabled : Bool
  pub busy : Bool
  pub datablks : List ℕ

pub jbd_alloc_journal : Journal
jbd_alloc_journal = record { enabled = true; busy = false; datablks = [] }

module _ (start : ℕ) where
  abbrev pub journal_bmap : ℕ → ℕ
  journal_bmap lb = start + lb

  pub write_data_blk : ℕ → ℕ → M (Unit {0})
  write_data_blk i b = do
    bdev_get_blk (journal_bmap (jdata_start_blk + i))
    lock_blk b
    (λ d. fill_buffer (journal_bmap (jdata_start_blk + i)) (d.buffer b) d)
    unlock_blk b
    bdev_write_blk (journal_bmap (jdata_start_blk + i))
    bdev_release_blk (journal_bmap (jdata_start_blk + i))

  -- The first loop of write_journal_blks, from the entry `i` on.
  pub write_data_blks : ℕ → List ℕ → M (Unit {0})
  unfolding write_data_blk
  write_data_blks i [] = pure tt
  write_data_blks i (b ∷ bs) = write_data_blk i b >> write_data_blks (suc i) bs

  -- Its second loop, which makes one round at most.
  pub write_bmap : List ℕ → M (Unit {0})
  write_bmap [] = pure tt
  write_bmap (b ∷ bs) = do
    bdev_get_blk (journal_bmap bmap_start_blk)
    (λ d.
        fill_buffer (journal_bmap bmap_start_blk)
          (put_words (d.buffer (journal_bmap bmap_start_blk)) 0 (b ∷ bs)) d)
    bdev_write_blk (journal_bmap bmap_start_blk)
    bdev_release_blk (journal_bmap bmap_start_blk)

  pub write_journal_blks : List ℕ → M (Unit {0})
  unfolding write_data_blks write_bmap
  write_journal_blks log = do
    kassert (ltb (length log) journal_size)
    write_data_blks 0 log
    write_bmap log

  pub write_journal_header : ℕ → M (Unit {0})
  write_journal_header n_blks = do
    bdev_get_blk (journal_bmap header_blk)
    (λ d.
        fill_buffer (journal_bmap header_blk)
          (put_word (d.buffer (journal_bmap header_blk)) 0 n_blks) d)
    bdev_write_blk (journal_bmap header_blk)
    bdev_release_blk (journal_bmap header_blk)

  -- One round of apply_journal. The block is clean after bdev_write_blk.
  pub apply_blk : ℕ → M (Unit {0})
  apply_blk b = do lock_blk b; bdev_write_blk b; bdev_release_blk b

  pub apply_journal : List ℕ → M (Unit {0})
  unfolding apply_blk
  apply_journal [] = pure tt
  apply_journal (b ∷ bs) = apply_blk b >> apply_journal bs

  -- commit_journal up to the call of erase_journal.
  pub publish : List ℕ → M (Unit {0})
  unfolding write_journal_blks write_journal_header apply_journal
  publish log = do write_journal_blks log; write_journal_header (length log); apply_journal log

  pub commit_journal : List ℕ → M (Unit {0})
  unfolding publish write_journal_header
  commit_journal log = publish log >> write_journal_header 0

  -- What `next_index` leaves of the log after commit_journal: erase_journal sets it to 0.
  log_left : List ℕ → Dev → List ℕ
  unfolding publish
  log_left log d = elim (publish log d).0 [ ok _ ↦ [] | nomem ↦ log | stuck ↦ log | panicked ↦ log ]

  committed : Journal → Res (Unit {0}) × Dev → Res Journal × Dev
  committed j (ok _, d) = (ok (record j { busy = false; datablks = [] }), d)
  committed j (nomem, d) = (nomem, d)
  committed j (stuck, d) = (stuck, d)
  committed j (panicked, d) = (panicked, d)

  -- The loop of jbd_end_txn, with fuel for its tries; `nomem` when none is left.
  pub commit_until_ok : ℕ → List ℕ → M (Unit {0})
  unfolding commit_journal log_left
  commit_until_ok zero log d = (nomem, d)
  commit_until_ok (suc tries) log d = elim (commit_journal log d).0 [
    | ok _ ↦ commit_journal log d
    | nomem ↦ commit_until_ok tries (log_left log d) (commit_journal log d).1
    | stuck ↦ commit_journal log d
    | panicked ↦ commit_journal log d
  ]

  ended : ℕ → Bool → Bool → Journal → M Journal
  unfolding commit_until_ok committed
  ended tries false busy j d = (ok j, d)
  ended tries true false j d = (panicked, d)
  ended tries true true j d = elim (ltb 0 (length j.datablks)) [
    | true ↦ committed j (commit_until_ok tries j.datablks d)
    | false ↦ (ok (record j { busy = false }), d)
  ]

  pub jbd_end_txn : ℕ → Journal → M Journal
  unfolding ended
  jbd_end_txn tries j = ended tries j.enabled j.busy j

-- jbd_begin_txn; `none` is a wait for the transaction under way.
pub jbd_begin_txn : Journal → Option Journal
jbd_begin_txn j =
    if not j.enabled then some j else if j.busy then none else some (record j { busy = true })

abbrev pub logged : ℕ → List ℕ → Bool
logged b [] = false
logged b (x ∷ xs) = (x == b) || logged b xs

append_blk : Bool → Bool → ℕ → Journal → M Journal
append_blk true room b j d = (ok j, d)
append_blk false false b j d = (panicked, d)
append_blk false true b j d = (
  ok (record j { datablks = j.datablks ++ (b ∷ []) }),
  record d { ref = update d.ref b (d.ref b + 1) },
)

write_busy : Bool → Bool → ℕ → Journal → M Journal
unfolding append_blk
write_busy false busy b j d = (ok j, d)
write_busy true false b j d = (panicked, d)
write_busy true true b j d =
    append_blk (logged b j.datablks) (ltb (length j.datablks) journal_size) b j d

pub jbd_write_blk : ℕ → Journal → M Journal
unfolding write_busy
jbd_write_blk b j = write_busy j.enabled j.busy b j

-- jbd_recover, which is not implemented.
pub jbd_recover : M (Unit {0})
jbd_recover d = (ok tt, d)
