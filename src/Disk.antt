-- ===== src/Disk.antt =====
-- The block cache of kernel/bdev.c, as its clients see it: what the buffers and the disk hold, which
-- buffers are locked, and their reference counts. A buffer is known by its block number.
pub mod Words
pub mod Steps
use operating_system_osv.Base.{
  ℕ, zero, suc, ◌+◌, ◌-◌, Bool, true, false, ltb, ◌==◌, if◌then◌else◌, update,
}

-- `answers` says, call by call, whether the allocations inside the calls succeed; `power` counts
-- the blocks that the disk still writes before the power fails.
pub record Dev : Type 0 where
  pub disk : ℕ → ℕ → ℕ
  -- `data` of the block headers
  pub buffer : ℕ → ℕ → ℕ
  pub held : ℕ → Bool
  pub ref : ℕ → ℕ
  pub answers : ℕ → Bool
  pub power : ℕ

-- ERR_OK, ERR_NOMEM, a wait for a lock that the caller holds itself, and a failed assertion.
pub data Res (A : Type 0) : Type 0 where
  ok : A → Res A
  nomem : Res A
  stuck : Res A
  panicked : Res A

abbrev pub M : Type 0 → Type 0
M A = Dev → Res A × Dev

abbrev pub bind : {A B : Type 0} → Res A × Dev → (A → M B) → Res B × Dev
bind (ok a, d) f = f a d
bind (nomem, d) f = (nomem, d)
bind (stuck, d) f = (stuck, d)
bind (panicked, d) f = (panicked, d)

infixl 5 ◌>>=◌ ◌>>◌
abbrev pub ◌>>=◌ : {A B : Type 0} → M A → (A → M B) → M B
◌>>=◌ m f d = bind (m d) f

abbrev pub ◌>>◌ : {B : Type 0} → M (Unit {0}) → M B → M B
m >> k = m >>= λ _. k

abbrev pub pure : {A : Type 0} → A → M A
pure a d = (ok a, d)

abbrev pub kassert : Bool → M (Unit {0})
kassert true d = (ok tt, d)
kassert false d = (panicked, d)

-- One allocation.
abbrev pub ask : Bool → M (Unit {0})
ask true d = (ok tt, record d { answers = λ n. d.answers (suc n) })
ask false d = (nomem, record d { answers = λ n. d.answers (suc n) })

lock_at : Bool → ℕ → M (Unit {0})
lock_at true b d = (stuck, d)
lock_at false b d = (ok tt, record d { held = update d.held b true })

-- sleeplock_acquire and sleeplock_release of a block header's lock, by the thread of the commit.
unfoldable pub lock_blk : ℕ → M (Unit {0})
unfolding lock_at
lock_blk b d = lock_at (d.held b) b d

unfoldable pub unlock_blk : ℕ → M (Unit {0})
unlock_blk b d = (ok tt, record d { held = update d.held b false })

count_up : ℕ → M (Unit {0})
count_up b d = (ok tt, record d { ref = update d.ref b (d.ref b + 1) })

unfoldable pub bdev_get_blk_unlocked : ℕ → M (Unit {0})
unfolding count_up
bdev_get_blk_unlocked b d = (ask (d.answers 0) >> count_up b) d

unfoldable pub bdev_get_blk : ℕ → M (Unit {0})
unfolding bdev_get_blk_unlocked lock_blk
bdev_get_blk b = bdev_get_blk_unlocked b >> lock_blk b

count_down : ℕ → M (Unit {0})
count_down b d =
    if ltb 0 (d.ref b)
    then (ok tt, record d { ref = update d.ref b (d.ref b - 1) })
    else (panicked, d)

unfoldable pub bdev_release_blk : ℕ → M (Unit {0})
unfolding unlock_blk count_down
bdev_release_blk b = unlock_blk b >> count_down b

-- A write that reaches the disk if there is power left.
persist : ℕ → ℕ → M (Unit {0})
persist zero b d = (ok tt, d)
persist (suc p) b d = (ok tt, record d { disk = update d.disk b (d.buffer b); power = p })

unfoldable pub bdev_write_blk : ℕ → M (Unit {0})
unfolding persist
bdev_write_blk b d = (ask (d.answers 0) >> (λ d'. persist d'.power b d')) d

-- memmove into a buffer.
unfoldable pub fill_buffer : ℕ → (ℕ → ℕ) → M (Unit {0})
fill_buffer b bytes d = (ok tt, record d { buffer = update d.buffer b bytes })
