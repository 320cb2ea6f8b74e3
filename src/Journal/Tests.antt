-- ===== src/Journal/Tests.antt =====
-- A journal at block 10, and a log of two blocks.
use operating_system_osv.Base.{
  ℕ, suc, ◌+◌, ◌≡◌, refl, List, [], ◌∷◌, Bool, true, false, ◌==◌, if◌then◌else◌, arith, inr,
}
use operating_system_osv.Disk.{
  Dev, ok, stuck, bdev_get_blk, bdev_release_blk, bdev_write_blk, fill_buffer,
}
use operating_system_osv.Disk.Words.{get_word}
use operating_system_osv.Journal.{Journal, commit_journal, commit_until_ok, jbd_write_blk}
use operating_system_osv.Journal.Atomic.{Recovers, commit_journal-Recovers}
use operating_system_osv.Journal.Logging.{IsOpen, Logs, jbd_write_blk-Logs}
use operating_system_osv.Journal.Retry.{retry_stuck}

-- Buffers hold 7 in each byte where the disk holds 0, and two blocks are referenced by the log.
abbrev dev : ℕ → (ℕ → Bool) → Dev
dev power answers = record {
  disk = λ _ _. 0;
  buffer = λ b _. if b == 10 then 0 else 7;
  held = λ _. false;
  ref = λ _. 1;
  answers = answers;
  power = power;
}

abbrev two_blks : List ℕ
two_blks = 200 ∷ 201 ∷ []

commits : (commit_journal 10 two_blks (dev 20 (λ _. true))).0 ≡ ok tt
unfolding commit_journal bdev_get_blk bdev_release_blk bdev_write_blk fill_buffer
commits = refl

home : (commit_journal 10 two_blks (dev 20 (λ _. true))).1.disk 201 3 ≡ 7
unfolding commit_journal bdev_get_blk bdev_release_blk bdev_write_blk fill_buffer
home = refl

-- With power for five blocks, one of the two is home.
halfway : (commit_journal 10 two_blks (dev 5 (λ _. true))).1.disk 201 3 ≡ 0
unfolding commit_journal bdev_get_blk bdev_release_blk bdev_write_blk fill_buffer
halfway = refl

erased_at_first : get_word ((dev 5 (λ _. true)).disk (10 + 0)) 0 ≡ 0
unfolding get_word
erased_at_first = refl

commit_journal-Recovers_example :
    Recovers 10 (dev 5 (λ _. true)) two_blks (commit_journal 10 two_blks (dev 5 (λ _. true)))
commit_journal-Recovers_example =
    commit_journal-Recovers 10 (dev 5 (λ _. true)) two_blks erased_at_first
      (inr (omega arith), (inr (omega arith), tt)) (omega arith) (omega arith)

abbrev txn : Journal
txn = record { enabled = true; busy = true; datablks = two_blks }

txn-IsOpen : IsOpen txn
txn-IsOpen = record {
  enabled = refl;
  busy = refl;
  no_repeat = (refl, (refl, tt));
  fits = omega arith;
}

jbd_write_blk-Logs_example :
    Logs 202 txn (dev 5 (λ _. true)) (jbd_write_blk 202 txn (dev 5 (λ _. true)))
jbd_write_blk-Logs_example = jbd_write_blk-Logs 202 txn (dev 5 (λ _. true)) txn-IsOpen

retry_stuck_example :
    (commit_until_ok 10 (suc (suc 1)) two_blks (dev 20 (λ n. if n == 1 then false else true))).0
    ≡ stuck
retry_stuck_example =
    retry_stuck 10 200 1 (201 ∷ []) (dev 20 (λ n. if n == 1 then false else true)) (omega arith)
      (omega arith) refl refl refl refl refl
