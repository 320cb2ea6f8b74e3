-- ===== src/Journal/Retry.antt =====
-- The retry of a commit that failed while a buffer was locked.
use operating_system_osv.Base.{ℕ, suc, ◌+◌, ◌<◌, ◌≡◌, ◌≢◌, List, ◌∷◌, length, arith, true, false}
use operating_system_osv.Disk.{
  Dev, stuck, lock_blk, unlock_blk, bdev_get_blk, bdev_write_blk, fill_buffer,
}
use operating_system_osv.Journal.{
  write_data_blk, write_data_blks, write_journal_blks, publish, commit_journal, log_left,
  commit_until_ok,
}

-- If the allocation in the first bdev_write_blk of a commit fails, with both buffers unlocked before,
-- and the next try gets its buffer, then jbd_end_txn waits for a lock that its thread holds itself:
-- write_journal_blks returns without releasing the journal's buffer.
pub retry_stuck :
    (start b tries : ℕ) (bs : List ℕ) (d : Dev)
    → length (b ∷ bs) < 128
    → start + (2 + 0) ≢ b
    → d.held (start + (2 + 0)) ≡ false
    → d.held b ≡ false
    → d.answers 0 ≡ true
    → d.answers 1 ≡ false
    → d.answers 2 ≡ true
    → (commit_until_ok start (suc (suc tries)) (b ∷ bs) d).0 ≡ stuck
unfolding commit_until_ok commit_journal publish write_journal_blks write_data_blks write_data_blk
    log_left bdev_get_blk lock_blk unlock_blk bdev_write_blk fill_buffer
retry_stuck start b tries bs d short ne free free_b a0 a1 a2 = ground arith
