-- ===== src/Journal/Logging.antt =====
-- jbd_write_blk: the log of a transaction.
use operating_system_osv.Base.{
  ℕ, ◌+◌, ◌≤◌, ◌≡◌, refl, ap, List, [], ◌∷◌, ◌++◌, length, length-append, update, arith, Bool, true,
  false, ltb, ◌==◌, ◌||◌, ◌&&◌, not, ℕ_discrete, if◌then◌else◌,
}
use operating_system_osv.Disk.{Dev, Res, ok, nomem, stuck, panicked}
use operating_system_osv.Journal.{
  Journal, journal_size, logged, append_blk, write_busy, jbd_write_blk,
}

abbrev pub NoRepeat : List ℕ → Type 0
NoRepeat [] = Unit
NoRepeat (b ∷ bs) = (logged b bs ≡ false) × NoRepeat bs

-- The journal of a transaction under way.
pub record IsOpen (j : Journal) : Type 0 where
  pub enabled : j.enabled ≡ true
  pub busy : j.busy ≡ true
  pub no_repeat : NoRepeat j.datablks
  pub fits : length j.datablks ≤ journal_size

logged-snoc : (b x : ℕ) (bs : List ℕ) → logged x (bs ++ (b ∷ [])) ≡ logged x bs || (b == x)
logged-snoc b x [] = ground arith
logged-snoc b x (c ∷ bs) = ground (arith, logged-snoc b x bs)

NoRepeat-snoc :
    (b : ℕ) (bs : List ℕ) → logged b bs ≡ false → NoRepeat bs → NoRepeat (bs ++ (b ∷ []))
NoRepeat-snoc b [] h n = (refl, tt)
NoRepeat-snoc b (c ∷ bs) h n =
    (ground (arith, logged-snoc b c bs, n.0, h), NoRepeat-snoc b bs (ground (arith, h)) n.1)

-- What a call of jbd_write_blk leads to: a panic only when the journal is full of other blocks.
abbrev pub Logs : ℕ → Journal → Dev → Res Journal × Dev → Type 0
Logs b j d (ok j', d') =
    IsOpen j'
    × ((x : ℕ) → logged x j'.datablks ≡ logged x j.datablks || (b == x))
    × ((x : ℕ)
        → d'.ref x ≡ (if (b == x) && not (logged b j.datablks) then d.ref x + 1 else d.ref x))
    × (d'.buffer ≡ d.buffer)
Logs b j d (nomem, d') = ⊥
Logs b j d (stuck, d') = ⊥
Logs b j d (panicked, d') = (logged b j.datablks ≡ false) × (length j.datablks ≡ journal_size)

appended :
    (b : ℕ) (j : Journal) (d : Dev) (room : Bool)
    → IsOpen j
    → logged b j.datablks ≡ false
    → ltb (length j.datablks) journal_size ≡ room
    → Logs b j d (append_blk false room b j d)
unfolding append_blk
appended b j d false o l e = (l, omega (arith, o.fits, full))
  where
    full : journal_size ≤ length j.datablks
    full = ground arith
appended b j d true o l e = (
  record {
    enabled = o.enabled;
    busy = o.busy;
    no_repeat = NoRepeat-snoc b j.datablks l o.no_repeat;
    fits = rw (length-append j.datablks (b ∷ [])) (ground arith);
  },
  λ x. logged-snoc b x j.datablks,
  λ x. counted x,
  refl,
)
  where
    counted :
        (x : ℕ)
        → update d.ref b (d.ref b + 1) x
          ≡ (if (b == x) && not (logged b j.datablks) then d.ref x + 1 else d.ref x)
    counted x = elim (ℕ_discrete b x) [
      | yes e ↦ ground (arith, e, l, ap d.ref e)
      | no ne ↦ ground (arith, ne)
    ]

already :
    (b : ℕ) (j : Journal) (d : Dev) (room : Bool)
    → IsOpen j
    → logged b j.datablks ≡ true
    → Logs b j d (append_blk true room b j d)
unfolding append_blk
already b j d room o l = (o, λ x. present x (ℕ_discrete b x), λ x. ground (arith, l), refl)
  where
    present : (x : ℕ) → Dec (b ≡ x) → logged x j.datablks ≡ logged x j.datablks || (b == x)
    present x (yes e) = ground (arith, e, l, ap (λ (n : ℕ). logged n j.datablks) e)
    present x (no ne) = ground (arith, ne)

-- In a transaction, jbd_write_blk keeps the log free of repetitions and within 128 blocks. After it
-- exactly the blocks logged before and `b` are logged; a reference to `b` is taken just if it is
-- new. It panics just when the journal is full and `b` is not in it.
pub jbd_write_blk-Logs :
    (b : ℕ) (j : Journal) (d : Dev) → IsOpen j → Logs b j d (jbd_write_blk b j d)
unfolding jbd_write_blk write_busy
jbd_write_blk-Logs b j d o = go j.enabled j.busy o.enabled o.busy
  where
    put :
        (l : Bool)
        → logged b j.datablks ≡ l
        → Logs b j d (append_blk l (ltb (length j.datablks) journal_size) b j d)
    put true l = already b j d (ltb (length j.datablks) journal_size) o l
    put false l = appended b j d (ltb (length j.datablks) journal_size) o l refl

    go : (e f : Bool) → e ≡ true → f ≡ true → Logs b j d (write_busy e f b j d)
    go true true _ _ = put (logged b j.datablks) refl
    go true false _ q = cc
    go false f q _ = cc
