-- ===== src/Journal/Header.antt =====
-- The write of the header, which commits.
use operating_system_osv.Base.{
  ℕ, ◌+◌, ◌^◌, ◌<◌, ◌≡◌, ◌≢◌, ◌∙◌, ap, sym, subst, ◌⊎◌, inl, inr, List, length, update, arith, true,
}
use operating_system_osv.Disk.{Dev, Res}
use operating_system_osv.Disk.Words.{put_word, get_word, get_word-put_word_self}
use operating_system_osv.Disk.Steps.{Post, Post-weaken}
use operating_system_osv.Journal.{logged, write_journal_header}
use operating_system_osv.Journal.Writing.{IsTouched, IsStored, header-Stores}
use operating_system_osv.Journal.Phases.{Outside, Mapped, IsSafe, IsLogged, Written-same}

-- The header counts the log, which the journal holds; each block outside the journal is as it was in
-- `d0`, or is in the log and has the content that was logged.
pub record IsCommitted (start : ℕ) (d0 : Dev) (log : List ℕ) (d : Dev) : Type 0 where
  pub is_logged : IsLogged start d0.buffer log d.disk
  pub header : get_word (d.disk (start + 0)) 0 ≡ length log
  pub disk :
      (x : ℕ)
      → Outside start x
      → (d.disk x ≡ d0.disk x) ⊎ ((logged x log ≡ true) × (d.disk x ≡ d0.buffer x))
  pub buffers : (x : ℕ) → Outside start x → d.buffer x ≡ d0.buffer x

-- The commit has not begun for the disk, and the power has failed.
abbrev pub Before : ℕ → Dev → Dev → Type 0
Before start d0 d = IsSafe start d0 d × (d.power ≡ 0)

-- The disk is as it was, so what it says still holds.
IsSafe-same :
    (start k : ℕ) (c : ℕ → ℕ) (d0 d d' : Dev)
    → ((x : ℕ) → Outside start x → k ≢ x)
    → IsSafe start d0 d
    → IsTouched k c d d'
    → d'.disk ≡ d.disk
    → IsSafe start d0 d'
IsSafe-same start k c d0 d d' apart s t e = record {
  disk = λ x o. ap (λ (f : ℕ → ℕ → ℕ). f x) e ∙ s.disk x o;
  header = ap (λ (f : ℕ → ℕ → ℕ). f (start + 0)) e ∙ s.header;
  buffers = λ x o. t.buffers x (apart x o) ∙ s.buffers x o;
}

pub header_apart : (start x : ℕ) → Outside start x → start + 0 ≢ x
header_apart start x (inl l) e = omega arith
header_apart start x (inr l) e = omega arith

pub header-IsSafe :
    (start : ℕ) (c : ℕ → ℕ) (d0 d d' : Dev)
    → IsSafe start d0 d
    → IsTouched (start + 0) c d d'
    → d'.disk ≡ d.disk
    → IsSafe start d0 d'
header-IsSafe start c d0 d d' = IsSafe-same start (start + 0) c d0 d d' (header_apart start)

-- The same for a committed journal.
pub IsCommitted-same :
    (start : ℕ) (d0 : Dev) (log : List ℕ) (d d' : Dev)
    → IsCommitted start d0 log d
    → ((x : ℕ) → Outside start x → d'.buffer x ≡ d.buffer x)
    → d'.disk ≡ d.disk
    → IsCommitted start d0 log d'
IsCommitted-same start d0 log d d' s b e = record {
  is_logged = subst (λ (f : ℕ → ℕ → ℕ). IsLogged start d0.buffer log f) (sym e) s.is_logged;
  header = ap (λ (f : ℕ → ℕ → ℕ). get_word (f (start + 0)) 0) e ∙ s.header;
  disk =
      subst
        (λ (f : ℕ → ℕ → ℕ).
          (x : ℕ)
          → Outside start x
          → (f x ≡ d0.disk x) ⊎ ((logged x log ≡ true) × (f x ≡ d0.buffer x)))
        (sym e) s.disk;
  buffers = λ x o. b x o ∙ s.buffers x o;
}

-- Writing the header commits.
header_commits :
    (start : ℕ) (d0 : Dev) (log : List ℕ) (d d' : Dev) (c : ℕ → ℕ)
    → IsSafe start d0 d
    → IsLogged start d0.buffer log d.disk
    → IsTouched (start + 0) c d d'
    → get_word c 0 ≡ length log
    → d'.disk ≡ update d.disk (start + 0) c
    → IsCommitted start d0 log d'
header_commits start d0 log d d' c s l t w e = record {
  is_logged = record {
    short = l.short;
    map = subst (Mapped 0 log) (sym (at (start + 1) (λ q. omega arith))) l.map;
    blks =
        Written-same start d0.buffer d.disk d'.disk log 0
          (λ k _. at (start + (2 + k)) (λ q. omega arith)) l.blks;
  };
  header =
      ap (λ (f : ℕ → ℕ → ℕ). get_word (f (start + 0)) 0) e
      ∙ ap (λ (f : ℕ → ℕ). get_word f 0) at_self
      ∙ w;
  disk = λ x o. inl (at x (header_apart start x o) ∙ s.disk x o);
  buffers = λ x o. t.buffers x (header_apart start x o) ∙ s.buffers x o;
}
  where
    at_self : update d.disk (start + 0) c (start + 0) ≡ c
    at_self = ground arith

    at : (x : ℕ) → start + 0 ≢ x → d'.disk x ≡ d.disk x
    at x ne = ap (λ (f : ℕ → ℕ → ℕ). f x) e ∙ ground (arith, ne)

-- Before the commit with no power left, or committed.
abbrev pub Begun : ℕ → Dev → List ℕ → Dev → Type 0
Begun start d0 log d = Before start d0 d ⊎ IsCommitted start d0 log d

module _ (start : ℕ) (d0 : Dev) (log : List ℕ) where
  HeaderPost : Res (Unit {0}) × Dev → Type 0
  HeaderPost =
      Post (λ d'. IsSafe start d0 d' ⊎ IsCommitted start d0 log d') (λ _ d'. Begun start d0 log d')

  pub header-Post :
      (d : Dev)
      → length log < 2 ^ 32
      → IsSafe start d0 d
      → (d.power ≡ 0) ⊎ IsLogged start d0.buffer log d.disk
      → Post
          (λ d'. IsSafe start d0 d' ⊎ IsCommitted start d0 log d')
          (λ _ d'. Begun start d0 log d')
          (write_journal_header start (length log) d)
  header-Post d short s l =
      Post-weaken (IsTouched (start + 0) content d) _ (λ _ d'. IsStored (start + 0) content d d') _
        (write_journal_header start (length log) d) (λ d' t. touched d' t t.disk l)
        (λ _ d' z. stored d' z.touched z.disk l) (header-Stores start (length log) d)
    where
      content : ℕ → ℕ
      content = put_word (d.buffer (start + 0)) 0 (length log)

      commits :
          (d' : Dev)
          → IsTouched (start + 0) content d d'
          → IsLogged start d0.buffer log d.disk
          → d'.disk ≡ update d.disk (start + 0) content
          → IsCommitted start d0 log d'
      commits d' t w e =
          header_commits start d0 log d d' content s w t
            (get_word-put_word_self (d.buffer (start + 0)) 0 (length log) short) e

      touched :
          (d' : Dev)
          → IsTouched (start + 0) content d d'
          → (d'.disk ≡ update d.disk (start + 0) content) ⊎ (d'.disk ≡ d.disk)
          → (d.power ≡ 0) ⊎ IsLogged start d0.buffer log d.disk
          → IsSafe start d0 d' ⊎ IsCommitted start d0 log d'
      touched d' t (inr e) w = inl (header-IsSafe start content d0 d d' s t e)
      touched d' t (inl e) (inl z) = inl (header-IsSafe start content d0 d d' s t (t.no_power z).0)
      touched d' t (inl e) (inr w) = inr (commits d' t w e)

      stored :
          (d' : Dev)
          → IsTouched (start + 0) content d d'
          → (d'.disk ≡ update d.disk (start + 0) content) ⊎ ((d'.disk ≡ d.disk) × (d'.power ≡ 0))
          → (d.power ≡ 0) ⊎ IsLogged start d0.buffer log d.disk
          → Begun start d0 log d'
      stored d' t (inr (e, z)) w = inl (header-IsSafe start content d0 d d' s t e, z)
      stored d' t (inl e) (inl z) =
          let q = t.no_power z in inl (header-IsSafe start content d0 d d' s t q.0, q.1)
      stored d' t (inl e) (inr w) = inr (commits d' t w e)
