-- ===== src/Journal/Writing.antt =====
-- One block of the journal written: what changes, on every path.
use operating_system_osv.Base.{
  ℕ, ◌+◌, ◌≡◌, ◌≢◌, refl, ◌∙◌, ap, sym, ◌⊎◌, inl, inr, List, ◌∷◌, update, arith, ℕ_discrete,
}
use operating_system_osv.Disk.{
  Dev, M, Res, bind, ◌>>◌, lock_blk, unlock_blk, bdev_get_blk, bdev_release_blk, bdev_write_blk,
  fill_buffer,
}
use mathlib.Core.Path.{fun_ext}
use operating_system_osv.Disk.Words.{put_word, put_words}
use operating_system_osv.Disk.Steps.{
  Post, Post-bind, Post-weaken, IsQuiet, Quiet, Quiet-then, lock_blk-Quiet, bdev_get_blk-Quiet,
  bdev_release_blk-Quiet, IsPersisted, bdev_write_blk-IsPersisted,
}
use operating_system_osv.Journal.{write_data_blk, write_bmap, write_journal_header, apply_blk}

-- The block `pb` has been given the content `c`, if anything has changed.
pub record IsTouched (pb : ℕ) (c : ℕ → ℕ) (d d' : Dev) : Type 0 where
  pub buffers : (x : ℕ) → pb ≢ x → d'.buffer x ≡ d.buffer x
  pub here : (d'.buffer pb ≡ c) ⊎ (d'.buffer pb ≡ d.buffer pb)
  pub disk : (d'.disk ≡ update d.disk pb c) ⊎ (d'.disk ≡ d.disk)
  pub no_power : d.power ≡ 0 → (d'.disk ≡ d.disk) × (d'.power ≡ 0)

-- It has, unless the power had failed.
pub record IsStored (pb : ℕ) (c : ℕ → ℕ) (d d' : Dev) : Type 0 where
  pub touched : IsTouched pb c d d'
  pub disk : (d'.disk ≡ update d.disk pb c) ⊎ ((d'.disk ≡ d.disk) × (d'.power ≡ 0))

abbrev pub Stores : ℕ → (ℕ → ℕ) → Dev → Res (Unit {0}) × Dev → Type 0
Stores pb c d = Post (IsTouched pb c d) (λ _ d'. IsStored pb c d d')

quiet-IsTouched : (pb : ℕ) (c : ℕ → ℕ) (d d' : Dev) → IsQuiet d d' → IsTouched pb c d d'
quiet-IsTouched pb c d d' q = record {
  buffers = λ x _. ap (λ (f : ℕ → ℕ → ℕ). f x) q.buffer;
  here = inr (ap (λ (f : ℕ → ℕ → ℕ). f pb) q.buffer);
  disk = inr q.disk;
  no_power = λ e. (q.disk, q.power ∙ e);
}

-- Only the buffer `pb` differs, and holds `c`.
record IsFilled (pb : ℕ) (c : ℕ → ℕ) (d d' : Dev) : Type 0 where
  buffer : d'.buffer ≡ update d.buffer pb c
  disk : d'.disk ≡ d.disk
  power : d'.power ≡ d.power

filled-IsTouched : (pb : ℕ) (c : ℕ → ℕ) (d d' : Dev) → IsFilled pb c d d' → IsTouched pb c d d'
filled-IsTouched pb c d d' f = record {
  buffers = λ x ne. ap (λ (g : ℕ → ℕ → ℕ). g x) f.buffer ∙ other x ne;
  here = inl (ap (λ (g : ℕ → ℕ → ℕ). g pb) f.buffer ∙ at_self);
  disk = inr f.disk;
  no_power = λ e. (f.disk, f.power ∙ e);
}
  where
    at_self : update d.buffer pb c pb ≡ c
    at_self = ground arith

    other : (x : ℕ) → pb ≢ x → update d.buffer pb c x ≡ d.buffer x
    other x ne = ground arith

IsFilled-quiet :
    (pb : ℕ) (c : ℕ → ℕ) (d d' d'' : Dev)
    → IsFilled pb c d d'
    → IsQuiet d' d''
    → IsFilled pb c d d''
IsFilled-quiet pb c d d' d'' f q = record {
  buffer = q.buffer ∙ f.buffer;
  disk = q.disk ∙ f.disk;
  power = q.power ∙ f.power;
}

persisted-IsStored :
    (pb : ℕ) (c : ℕ → ℕ) (d d' d'' : Dev)
    → IsFilled pb c d d'
    → IsPersisted pb d' d''
    → IsStored pb c d d''
persisted-IsStored pb c d d' d'' f p = record {
  touched = record {
    buffers =
        λ x ne. ap (λ (g : ℕ → ℕ → ℕ). g x) p.buffer ∙ (filled-IsTouched pb c d d' f).buffers x ne;
    here = inl (ap (λ (g : ℕ → ℕ → ℕ). g pb) (p.buffer ∙ f.buffer) ∙ ground arith);
    disk = weaker (outcome p.disk);
    no_power = λ e. let z = p.no_power (f.power ∙ e) in (z.0 ∙ f.disk, z.1);
  };
  disk = outcome p.disk;
}
  where
    content : update d'.disk pb (d'.buffer pb) ≡ update d.disk pb c
    content =
        ap (λ (g : ℕ → ℕ → ℕ). update g pb (d'.buffer pb)) f.disk
        ∙ ap (update d.disk pb) (ap (λ (g : ℕ → ℕ → ℕ). g pb) f.buffer ∙ ground arith)

    outcome :
        (d''.disk ≡ update d'.disk pb (d'.buffer pb)) ⊎ ((d''.disk ≡ d'.disk) × (d''.power ≡ 0))
        → (d''.disk ≡ update d.disk pb c) ⊎ ((d''.disk ≡ d.disk) × (d''.power ≡ 0))
    outcome (inl e) = inl (e ∙ content)
    outcome (inr (e, z)) = inr (e ∙ f.disk, z)

    weaker :
        (d''.disk ≡ update d.disk pb c) ⊎ ((d''.disk ≡ d.disk) × (d''.power ≡ 0))
        → (d''.disk ≡ update d.disk pb c) ⊎ (d''.disk ≡ d.disk)
    weaker (inl e) = inl e
    weaker (inr (e, z)) = inr e

IsStored-quiet :
    (pb : ℕ) (c : ℕ → ℕ) (d d' d'' : Dev)
    → IsStored pb c d d'
    → IsQuiet d' d''
    → IsStored pb c d d''
IsStored-quiet pb c d d' d'' s q = record {
  touched = record {
    buffers = λ x ne. ap (λ (g : ℕ → ℕ → ℕ). g x) q.buffer ∙ s.touched.buffers x ne;
    here = still s.touched.here;
    disk = moved s.touched.disk;
    no_power = λ e. let z = s.touched.no_power e in (q.disk ∙ z.0, q.power ∙ z.1);
  };
  disk = outcome s.disk;
}
  where
    still :
        (d'.buffer pb ≡ c) ⊎ (d'.buffer pb ≡ d.buffer pb)
        → (d''.buffer pb ≡ c) ⊎ (d''.buffer pb ≡ d.buffer pb)
    still (inl e) = inl (ap (λ (g : ℕ → ℕ → ℕ). g pb) q.buffer ∙ e)
    still (inr e) = inr (ap (λ (g : ℕ → ℕ → ℕ). g pb) q.buffer ∙ e)

    moved :
        (d'.disk ≡ update d.disk pb c) ⊎ (d'.disk ≡ d.disk)
        → (d''.disk ≡ update d.disk pb c) ⊎ (d''.disk ≡ d.disk)
    moved (inl e) = inl (q.disk ∙ e)
    moved (inr e) = inr (q.disk ∙ e)

    outcome :
        (d'.disk ≡ update d.disk pb c) ⊎ ((d'.disk ≡ d.disk) × (d'.power ≡ 0))
        → (d''.disk ≡ update d.disk pb c) ⊎ ((d''.disk ≡ d.disk) × (d''.power ≡ 0))
    outcome (inl e) = inl (q.disk ∙ e)
    outcome (inr (e, z)) = inr (q.disk ∙ e, q.power ∙ z)

-- The write and the release at the end of each block.
write_release : ℕ → M (Unit {0})
write_release pb = bdev_write_blk pb >> bdev_release_blk pb

write_release-Stores :
    (pb : ℕ) (c : ℕ → ℕ) (d d' : Dev) → IsFilled pb c d d' → Stores pb c d (write_release pb d')
unfolding write_release
write_release-Stores pb c d d' f =
    Post-bind (IsTouched pb c d) (λ _ e. IsStored pb c d e) (λ _ e. IsStored pb c d e)
      (bdev_write_blk pb d') (λ _. bdev_release_blk pb)
      (Post-weaken (IsQuiet d') (IsTouched pb c d) (λ _ e. IsPersisted pb d' e)
        (λ _ e. IsStored pb c d e) (bdev_write_blk pb d')
        (λ e q. filled-IsTouched pb c d e (IsFilled-quiet pb c d d' e f q))
        (λ _ e p. persisted-IsStored pb c d d' e f p) (bdev_write_blk-IsPersisted pb d'))
      (λ _ e s.
        Post-weaken (IsQuiet e) (IsTouched pb c d) (λ _ g. IsQuiet e g) (λ _ g. IsStored pb c d g)
          (bdev_release_blk pb e) (λ g q. (IsStored-quiet pb c d e g s q).touched)
          (λ _ g q. IsStored-quiet pb c d e g s q) (bdev_release_blk-Quiet pb e))

-- A quiet step first.
Quiet-first :
    (pb : ℕ) (c : ℕ → ℕ) (d : Dev) (r : Res (Unit {0}) × Dev) (f : M (Unit {0}))
    → Quiet d r
    → ((e : Dev) → IsQuiet d e → Stores pb c d (f e))
    → Stores pb c d (bind r (λ _. f))
Quiet-first pb c d r f q k =
    Post-bind (IsTouched pb c d) (λ _ e. IsQuiet d e) (λ _ e. IsStored pb c d e) r (λ _. f)
      (Post-weaken (IsQuiet d) (IsTouched pb c d) (λ _ e. IsQuiet d e) (λ _ e. IsQuiet d e) r
        (quiet-IsTouched pb c d) (λ _ e z. z) q)
      (λ _. k)

-- The buffer filled with something made of the buffers, which no quiet step changes.
IsFilled-by :
    (pb : ℕ) (g : (ℕ → ℕ → ℕ) → ℕ → ℕ) (d e : Dev)
    → IsQuiet d e
    → IsFilled pb (g d.buffer) d (record e { buffer = update e.buffer pb (g e.buffer) })
IsFilled-by pb g d e q = record {
  buffer = ap (λ (h : ℕ → ℕ → ℕ). update h pb (g h)) q.buffer;
  disk = q.disk;
  power = q.power;
}

pub header-Stores :
    (start n : ℕ) (d : Dev)
    → Stores (start + 0) (put_word (d.buffer (start + 0)) 0 n) d (write_journal_header start n d)
unfolding write_journal_header
header-Stores start n d =
    Quiet-first (start + 0) (put_word (d.buffer (start + 0)) 0 n) d (bdev_get_blk (start + 0) d) _
      (bdev_get_blk-Quiet (start + 0) d)
      (λ e q.
        unfold fill_buffer write_release in
        (write_release-Stores (start + 0) (put_word (d.buffer (start + 0)) 0 n) d _
          (IsFilled-by (start + 0) (λ b. put_word (b (start + 0)) 0 n) d e q)))

pub bmap-Stores :
    (start b : ℕ) (bs : List ℕ) (d : Dev)
    → Stores
        (start + 1)
        (put_words (d.buffer (start + 1)) 0 (b ∷ bs))
        d
        (write_bmap start (b ∷ bs) d)
unfolding write_bmap
bmap-Stores start b bs d =
    Quiet-first (start + 1) (put_words (d.buffer (start + 1)) 0 (b ∷ bs)) d
      (bdev_get_blk (start + 1) d) _ (bdev_get_blk-Quiet (start + 1) d)
      (λ e q.
        unfold fill_buffer write_release in
        (write_release-Stores (start + 1) (put_words (d.buffer (start + 1)) 0 (b ∷ bs)) d _
          (IsFilled-by (start + 1) (λ f. put_words (f (start + 1)) 0 (b ∷ bs)) d e q)))

pub data-Stores :
    (start i b : ℕ) (d : Dev) → Stores (start + (2 + i)) (d.buffer b) d (write_data_blk start i b d)
unfolding write_data_blk fill_buffer unlock_blk write_release
data-Stores start i b d =
    let pb = start + (2 + i) in
    Quiet-first pb (d.buffer b) d (bdev_get_blk pb d) _ (bdev_get_blk-Quiet pb d) (λ e q.
      Quiet-first pb (d.buffer b) d (lock_blk b e) _
        (Quiet-then d e (lock_blk b e) q (lock_blk-Quiet b e))
        (λ f r. write_release-Stores pb (d.buffer b) d _ (
          IsFilled-quiet pb (d.buffer b) d _ _ (IsFilled-by pb (λ g. g b) d f r)
            (record { disk = refl; buffer = refl; power = refl }))))

pub apply-Stores : (start b : ℕ) (d : Dev) → Stores b (d.buffer b) d (apply_blk start b d)
unfolding apply_blk write_release
apply-Stores start b d = Quiet-first b (d.buffer b) d (lock_blk b d) _ (lock_blk-Quiet b d) (λ e q.
    write_release-Stores b (d.buffer b) d e
      (record { buffer = q.buffer ∙ unchanged; disk = q.disk; power = q.power }))
  where
    unchanged : d.buffer ≡ update d.buffer b (d.buffer b)
    unchanged = fun_ext (λ x. at x)
      where
        at : (x : ℕ) → d.buffer x ≡ update d.buffer b (d.buffer b) x
        at x = elim (ℕ_discrete b x) [
          | yes e ↦ sym (ap d.buffer e) ∙ ground (arith, e)
          | no ne ↦ ground (arith, ne)
        ]
