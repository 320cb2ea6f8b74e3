-- ===== src/Journal/Applying.antt =====
-- commit_journal from the header on: the log is in the journal while its blocks are written home.
use operating_system_osv.Base.{
  ℕ, ◌+◌, ◌<◌, ◌≡◌, ◌≢◌, ◌∙◌, ap, sym, subst, ◌⊎◌, inl, inr, List, [], ◌∷◌, update, arith, true,
  false, ◌==◌, ℕ_discrete, Bool-cases,
}
use operating_system_osv.Disk.{Dev}
use operating_system_osv.Disk.Words.{get_word}
use operating_system_osv.Disk.Steps.{Post, Post-bind, Post-weaken}
use operating_system_osv.Journal.{logged, apply_blk, apply_journal}
use operating_system_osv.Journal.Writing.{IsTouched, IsStored, apply-Stores}
use operating_system_osv.Journal.Phases.{Outside, AllOutside, Mapped, IsSafe, Written-same}
use operating_system_osv.Journal.Header.{IsCommitted, Before, Begun, IsCommitted-same}

-- The blocks of the list are home.
abbrev pub Applied : ℕ → Dev → List ℕ → Dev → Type 0
Applied start d0 bs d = (x : ℕ) → Outside start x → logged x bs ≡ true → d.disk x ≡ d0.buffer x

abbrev pub AllLogged : List ℕ → List ℕ → Type 0
AllLogged log [] = Unit
AllLogged log (b ∷ bs) = (logged b log ≡ true) × AllLogged log bs

-- Writing a block home changes no buffer.
buffers_kept :
    (b : ℕ) (d d' : Dev) → IsTouched b (d.buffer b) d d' → (x : ℕ) → d'.buffer x ≡ d.buffer x
buffers_kept b d d' t x = elim (ℕ_discrete b x) [
  | yes e ↦ subst (λ (n : ℕ). d'.buffer n ≡ d.buffer n) e (here t.here)
  | no ne ↦ t.buffers x ne
]
  where
    here : (d'.buffer b ≡ d.buffer b) ⊎ (d'.buffer b ≡ d.buffer b) → d'.buffer b ≡ d.buffer b
    here (inl e) = e
    here (inr e) = e

apply-IsSafe :
    (start b : ℕ) (d0 d d' : Dev)
    → IsSafe start d0 d
    → IsTouched b (d.buffer b) d d'
    → d'.disk ≡ d.disk
    → IsSafe start d0 d'
apply-IsSafe start b d0 d d' s t e = record {
  disk = λ x o. ap (λ (f : ℕ → ℕ → ℕ). f x) e ∙ s.disk x o;
  header = ap (λ (f : ℕ → ℕ → ℕ). f (start + 0)) e ∙ s.header;
  buffers = λ x o. buffers_kept b d d' t x ∙ s.buffers x o;
}

-- A block of the log written home keeps the journal committed.
apply_keeps :
    (start b : ℕ) (d0 : Dev) (log : List ℕ) (d d' : Dev)
    → Outside start b
    → logged b log ≡ true
    → IsCommitted start d0 log d
    → IsTouched b (d.buffer b) d d'
    → IsCommitted start d0 log d'
apply_keeps start b d0 log d d' o m s t = go t.disk
  where
    kept : (x : ℕ) → d'.buffer x ≡ d.buffer x
    kept = buffers_kept b d d' t

    in_journal : (k : ℕ) → k < 130 → b ≢ start + k
    in_journal k lt e = away o
      where
        away : Outside start b → ⊥
        away (inl l) = omega arith
        away (inr l) = omega arith

    go : (d'.disk ≡ update d.disk b (d.buffer b)) ⊎ (d'.disk ≡ d.disk) → IsCommitted start d0 log d'
    go (inr e) = IsCommitted-same start d0 log d d' s (λ x _. kept x) e
    go (inl e) = record {
      is_logged = record {
        short = s.is_logged.short;
        map =
            subst (Mapped 0 log) (sym (at (start + 1) (in_journal 1 (omega arith))))
              s.is_logged.map;
        blks =
            Written-same start d0.buffer d.disk d'.disk log 0
              (λ k l. at (start + (2 + k)) (in_journal (2 + k) (omega (arith, s.is_logged.short))))
              s.is_logged.blks;
      };
      header =
          ap (λ (f : ℕ → ℕ). get_word f 0) (at (start + 0) (in_journal 0 (omega arith))) ∙ s.header;
      disk = λ x p. home x p (ℕ_discrete b x);
      buffers = λ x p. kept x ∙ s.buffers x p;
    }
      where
        at : (x : ℕ) → b ≢ x → d'.disk x ≡ d.disk x
        at x ne = ap (λ (f : ℕ → ℕ → ℕ). f x) e ∙ ground (arith, ne)

        at_b : d'.disk b ≡ d0.buffer b
        at_b = ap (λ (f : ℕ → ℕ → ℕ). f b) e ∙ ground arith ∙ s.buffers b o

        home :
            (x : ℕ)
            → Outside start x
            → Dec (b ≡ x)
            → (d'.disk x ≡ d0.disk x) ⊎ ((logged x log ≡ true) × (d'.disk x ≡ d0.buffer x))
        home x p (no ne) =
            subst (λ (f : ℕ → ℕ). (f ≡ d0.disk x) ⊎ ((logged x log ≡ true) × (f ≡ d0.buffer x)))
              (sym (at x ne)) (s.disk x p)
        home x p (yes q) = inr (
          subst (λ (n : ℕ). logged n log ≡ true) q m,
          subst (λ (n : ℕ). d'.disk n ≡ d0.buffer n) q at_b,
        )

-- What has got home stays home.
abbrev Keeps : ℕ → Dev → Dev → Dev → Type 0
Keeps start d0 d d' = (x : ℕ) → Outside start x → d.disk x ≡ d0.buffer x → d'.disk x ≡ d0.buffer x

apply-Keeps :
    (start b : ℕ) (d0 d d' : Dev)
    → Outside start b
    → ((x : ℕ) → Outside start x → d.buffer x ≡ d0.buffer x)
    → IsTouched b (d.buffer b) d d'
    → Keeps start d0 d d'
apply-Keeps start b d0 d d' o same t x p h = go t.disk (ℕ_discrete b x)
  where
    go :
        (d'.disk ≡ update d.disk b (d.buffer b)) ⊎ (d'.disk ≡ d.disk)
        → Dec (b ≡ x)
        → d'.disk x ≡ d0.buffer x
    go (inr e) _ = ap (λ (f : ℕ → ℕ → ℕ). f x) e ∙ h
    go (inl e) (no ne) = ap (λ (f : ℕ → ℕ → ℕ). f x) e ∙ ground (arith, ne) ∙ h
    go (inl e) (yes q) =
        subst (λ (n : ℕ). d'.disk n ≡ d0.buffer n) q
          (ap (λ (f : ℕ → ℕ → ℕ). f b) e ∙ ground arith ∙ same b o)

module _ (start : ℕ) (d0 : Dev) (log : List ℕ) where
  -- How far apply_journal has come when it ends well.
  abbrev pub Home : List ℕ → Dev → Dev → Type 0
  Home bs d d' =
      Before start d0 d'
      ⊎ (IsCommitted start d0 log d'
          × ((d'.power ≡ 0) ⊎ (Applied start d0 bs d' × Keeps start d0 d d'))
          × (d.power ≡ 0 → d'.power ≡ 0))

  abbrev pub Crashed : Dev → Type 0
  Crashed d = IsSafe start d0 d ⊎ IsCommitted start d0 log d

apply_one :
    (start b : ℕ) (d0 : Dev) (log : List ℕ) (d : Dev)
    → Outside start b
    → logged b log ≡ true
    → Begun start d0 log d
    → Post (Crashed start d0 log) (λ _ d'. Home start d0 log (b ∷ []) d d') (apply_blk start b d)
apply_one start b d0 log d o m begun =
    Post-weaken (IsTouched b (d.buffer b) d) _ (λ _ d'. IsStored b (d.buffer b) d d') _
      (apply_blk start b d) (λ d' t. touched d' t begun)
      (λ _ d' z. stored d' z.touched z.disk begun) (apply-Stores start b d)
  where
    touched :
        (d' : Dev) → IsTouched b (d.buffer b) d d' → Begun start d0 log d → Crashed start d0 log d'
    touched d' t (inl (s, z)) = inl (apply-IsSafe start b d0 d d' s t (t.no_power z).0)
    touched d' t (inr s) = inr (apply_keeps start b d0 log d d' o m s t)

    only : (x : ℕ) → logged x (b ∷ []) ≡ true → b ≡ x
    only x h = ground arith

    applied :
        (d' : Dev)
        → IsCommitted start d0 log d
        → (d'.disk ≡ update d.disk b (d.buffer b)) ⊎ ((d'.disk ≡ d.disk) × (d'.power ≡ 0))
        → IsTouched b (d.buffer b) d d'
        → (d'.power ≡ 0) ⊎ (Applied start d0 (b ∷ []) d' × Keeps start d0 d d')
    applied d' s (inr (e, z)) t = inl z
    applied d' s (inl e) t = inr (
      λ x p h.
          subst (λ (n : ℕ). d'.disk n ≡ d0.buffer n) (only x h)
            (ap (λ (f : ℕ → ℕ → ℕ). f b) e ∙ ground arith ∙ s.buffers b o),
      apply-Keeps start b d0 d d' o s.buffers t,
    )

    stored :
        (d' : Dev)
        → IsTouched b (d.buffer b) d d'
        → (d'.disk ≡ update d.disk b (d.buffer b)) ⊎ ((d'.disk ≡ d.disk) × (d'.power ≡ 0))
        → Begun start d0 log d
        → Home start d0 log (b ∷ []) d d'
    stored d' t e (inl (s, z)) =
        let q = t.no_power z in inl (apply-IsSafe start b d0 d d' s t q.0, q.1)
    stored d' t e (inr s) =
        inr (apply_keeps start b d0 log d d' o m s t, applied d' s e t, λ z. (t.no_power z).1)

Home-Begun :
    (start : ℕ) (d0 : Dev) (log bs : List ℕ) (d d' : Dev)
    → Home start d0 log bs d d'
    → Begun start d0 log d'
Home-Begun start d0 log bs d d' (inl b) = inl b
Home-Begun start d0 log bs d d' (inr h) = inr h.0

-- After a block and the blocks that follow it.
Home-further :
    (start b : ℕ) (d0 : Dev) (log bs : List ℕ) (d d' e : Dev)
    → Home start d0 log (b ∷ []) d d'
    → Home start d0 log bs d' e
    → Home start d0 log (b ∷ bs) d e
Home-further start b d0 log bs d d' e h (inl x) = inl x
Home-further start b d0 log bs d d' e (inl (s, z)) (inr (c, p, n)) = inr (c, inl (n z), λ _. n z)
Home-further start b d0 log bs d d' e (inr (c', p', n')) (inr (c, p, n)) =
    inr (c, both p' p, λ z. n (n' z))
  where
    both :
        (d'.power ≡ 0) ⊎ (Applied start d0 (b ∷ []) d' × Keeps start d0 d d')
        → (e.power ≡ 0) ⊎ (Applied start d0 bs e × Keeps start d0 d' e)
        → (e.power ≡ 0) ⊎ (Applied start d0 (b ∷ bs) e × Keeps start d0 d e)
    both (inl z) w = inl (n z)
    both (inr f) (inl z) = inl z
    both (inr (f, k')) (inr (g, k)) =
        inr (λ x o q. split x o (Bool-cases (b == x)) q, λ x o q. k x o (k' x o q))
      where
        split :
            (x : ℕ)
            → Outside start x
            → (b == x ≡ true) ⊎ (b == x ≡ false)
            → logged x (b ∷ bs) ≡ true
            → e.disk x ≡ d0.buffer x
        split x o (inl y) q = k x o (f x o (ground (arith, y)))
        split x o (inr y) q = g x o (ground (arith, y, q))

pub apply_journal-Home :
    (start : ℕ) (d0 : Dev) (log bs : List ℕ) (d : Dev)
    → AllOutside start bs
    → AllLogged log bs
    → Begun start d0 log d
    → Post (Crashed start d0 log) (λ _ d'. Home start d0 log bs d d') (apply_journal start bs d)
unfolding apply_journal
apply_journal-Home start d0 log [] d o m (inl b) = inl b
apply_journal-Home start d0 log [] d o m (inr s) =
    inr (s, inr (λ x p h. absurd (ground arith), λ x p h. h), λ z. z)
apply_journal-Home start d0 log (b ∷ bs) d o m begun =
    Post-bind (Crashed start d0 log) (λ _ d'. Home start d0 log (b ∷ []) d d') _
      (apply_blk start b d) (λ _. apply_journal start bs) (apply_one start b d0 log d o.0 m.0 begun)
      (λ _ d' h.
        Post-weaken (Crashed start d0 log) (Crashed start d0 log) (λ _ e. Home start d0 log bs d' e)
          _ (apply_journal start bs d') (λ _ c. c)
          (λ _ e g. Home-further start b d0 log bs d d' e h g)
          (apply_journal-Home start d0 log bs d' o.1 m.1 (Home-Begun start d0 log (b ∷ []) d d' h)))
