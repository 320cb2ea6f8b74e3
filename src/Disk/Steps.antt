-- ===== src/Disk/Steps.antt =====
-- What the calls of the block cache do to the buffers and to the disk, on every path.
use operating_system_osv.Base.{
  ℕ, zero, suc, ◌-◌, ◌≡◌, refl, ◌∙◌, ◌⊎◌, inl, inr, Bool, true, false, ltb, if◌then◌else◌, update,
  arith,
}
use operating_system_osv.Disk.{
  Dev, Res, ok, nomem, stuck, panicked, M, bind, ask, lock_blk, unlock_blk, lock_at, count_up,
  count_down, persist, bdev_get_blk_unlocked, bdev_get_blk, bdev_release_blk, bdev_write_blk, ◌>>◌,
}

-- `Q` of the state after a call that succeeds, `P` of the state after one that does not.
abbrev pub Post : {A : Type 0} → (Dev → Type 0) → (A → Dev → Type 0) → Res A × Dev → Type 0
Post P Q (ok a, d) = Q a d
Post P Q (nomem, d) = P d
Post P Q (stuck, d) = P d
Post P Q (panicked, d) = P d

pub Post-bind :
    {A B : Type 0} (P : Dev → Type 0) (Q : A → Dev → Type 0) (R : B → Dev → Type 0)
    (r : Res A × Dev) (f : A → M B)
    → Post P Q r
    → ((a : A) (d : Dev) → Q a d → Post P R (f a d))
    → Post P R (bind r f)
Post-bind P Q R (ok a, d) f h k = k a d h
Post-bind P Q R (nomem, d) f h k = h
Post-bind P Q R (stuck, d) f h k = h
Post-bind P Q R (panicked, d) f h k = h

pub Post-weaken :
    {A : Type 0} (P P' : Dev → Type 0) (Q Q' : A → Dev → Type 0) (r : Res A × Dev)
    → ((d : Dev) → P d → P' d)
    → ((a : A) (d : Dev) → Q a d → Q' a d)
    → Post P Q r
    → Post P' Q' r
Post-weaken P P' Q Q' (ok a, d) f g h = g a d h
Post-weaken P P' Q Q' (nomem, d) f g h = f d h
Post-weaken P P' Q Q' (stuck, d) f g h = f d h
Post-weaken P P' Q Q' (panicked, d) f g h = f d h

-- Only locks, counts and answers differ.
pub record IsQuiet (d d' : Dev) : Type 0 where
  pub disk : d'.disk ≡ d.disk
  pub buffer : d'.buffer ≡ d.buffer
  pub power : d'.power ≡ d.power

pub IsQuiet-refl : (d : Dev) → IsQuiet d d
IsQuiet-refl d = record { disk = refl; buffer = refl; power = refl }

abbrev pub Quiet : Dev → Res (Unit {0}) × Dev → Type 0
Quiet d = Post (IsQuiet d) (λ _ d'. IsQuiet d d')

pub lock_blk-Quiet : (b : ℕ) (d : Dev) → Quiet d (lock_blk b d)
unfolding lock_blk
lock_blk-Quiet b d = go (d.held b)
  where
    go : (h : Bool) → Quiet d (lock_at h b d)
    go true = IsQuiet-refl d
    go false = record { disk = refl; buffer = refl; power = refl }

pub unlock_blk-Quiet : (b : ℕ) (d : Dev) → Quiet d (unlock_blk b d)
unfolding unlock_blk
unlock_blk-Quiet b d = record { disk = refl; buffer = refl; power = refl }

unlocked-Quiet : (b : ℕ) (d : Dev) → Quiet d (bdev_get_blk_unlocked b d)
unfolding bdev_get_blk_unlocked
unlocked-Quiet b d = go (d.answers 0)
  where
    go : (a : Bool) → Quiet d ((ask a >> count_up b) d)
    go true = record { disk = refl; buffer = refl; power = refl }
    go false = record { disk = refl; buffer = refl; power = refl }

pub IsQuiet-trans : (d d' d'' : Dev) → IsQuiet d d' → IsQuiet d' d'' → IsQuiet d d''
IsQuiet-trans d d' d'' q r = record {
  disk = r.disk ∙ q.disk;
  buffer = r.buffer ∙ q.buffer;
  power = r.power ∙ q.power;
}

-- A quiet step after a quiet one.
pub Quiet-then : (d d' : Dev) (r : Res (Unit {0}) × Dev) → IsQuiet d d' → Quiet d' r → Quiet d r
Quiet-then d d' r q =
    Post-weaken (IsQuiet d') (IsQuiet d) (λ _ e. IsQuiet d' e) (λ _ e. IsQuiet d e) r
      (λ e. IsQuiet-trans d d' e q) (λ _ e. IsQuiet-trans d d' e q)

pub bdev_get_blk-Quiet : (b : ℕ) (d : Dev) → Quiet d (bdev_get_blk b d)
unfolding bdev_get_blk
bdev_get_blk-Quiet b d =
    Post-bind (IsQuiet d) (λ _ d'. IsQuiet d d') (λ _ d'. IsQuiet d d') (bdev_get_blk_unlocked b d)
      (λ _. lock_blk b) (unlocked-Quiet b d)
      (λ _ d' q. Quiet-then d d' (lock_blk b d') q (lock_blk-Quiet b d'))

pub bdev_release_blk-Quiet : (b : ℕ) (d : Dev) → Quiet d (bdev_release_blk b d)
unfolding bdev_release_blk unlock_blk count_down
bdev_release_blk-Quiet b d = go (ltb 0 (d.ref b))
  where
    go :
        (a : Bool)
        → Quiet d (
            if a
            then (
              ok tt,
              record d { held = update d.held b false; ref = update d.ref b (d.ref b - 1) },
            )
            else (panicked, record d { held = update d.held b false }))
    go true = record { disk = refl; buffer = refl; power = refl }
    go false = record { disk = refl; buffer = refl; power = refl }

-- The buffer of `b` is on the disk, or the power had failed before.
pub record IsPersisted (b : ℕ) (d d' : Dev) : Type 0 where
  pub buffer : d'.buffer ≡ d.buffer
  pub disk : (d'.disk ≡ update d.disk b (d.buffer b)) ⊎ ((d'.disk ≡ d.disk) × (d'.power ≡ 0))
  pub no_power : d.power ≡ 0 → (d'.disk ≡ d.disk) × (d'.power ≡ 0)

persist-IsPersisted :
    (b p : ℕ) (d : Dev)
    → d.power ≡ p
    → Post (IsQuiet d) (λ _ d'. IsPersisted b d d') (persist p b d)
unfolding persist
persist-IsPersisted b zero d e = record {
  buffer = refl;
  disk = inr (refl, e);
  no_power = λ _. (refl, e);
}
persist-IsPersisted b (suc p) d e = record {
  buffer = refl;
  disk = inl refl;
  no_power = λ z. absurd (omega arith);
}

pub bdev_write_blk-IsPersisted :
    (b : ℕ) (d : Dev) → Post (IsQuiet d) (λ _ d'. IsPersisted b d d') (bdev_write_blk b d)
unfolding bdev_write_blk
bdev_write_blk-IsPersisted b d = go (d.answers 0)
  where
    go :
        (a : Bool)
        → Post
            (IsQuiet d)
            (λ _ d'. IsPersisted b d d')
            ((ask a >> (λ (e : Dev). persist e.power b e)) d)
    go false = record { disk = refl; buffer = refl; power = refl }
    go true =
        let d' : Dev = record d { answers = λ n. d.answers (suc n) } in
        Post-weaken (IsQuiet d') (IsQuiet d) (λ _ e. IsPersisted b d' e) (λ _ e. IsPersisted b d e)
          (persist d.power b d')
          (λ e q. record { disk = q.disk; buffer = q.buffer; power = q.power })
          (λ _ e q. record { buffer = q.buffer; disk = q.disk; no_power = q.no_power })
          (persist-IsPersisted b d.power d' refl)
