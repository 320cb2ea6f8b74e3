-- ===== src/Journal/Atomic.antt =====
-- A commit of the journal is atomic: what a recovery would find after a crash at any point.
use operating_system_osv.Base.{
  ℕ, zero, suc, ◌+◌, ◌^◌, ◌<◌, ◌≡◌, ◌≢◌, refl, ◌∙◌, ap, ap₂, ◌⊎◌, inl, inr, List, [], ◌∷◌, length,
  update, arith, true, false, if◌then◌else◌, ℕ_discrete, Bool-cases,
}
use operating_system_osv.Disk.{Dev, Res, ok, nomem, stuck, panicked}
use operating_system_osv.Disk.Words.{put_word, get_word, get_word-put_word_self, AreWords}
use operating_system_osv.Disk.Steps.{Post, Post-bind, Post-weaken}
use operating_system_osv.Journal.{
  logged, write_journal_blks, write_journal_header, apply_journal, publish, commit_journal,
}
use operating_system_osv.Journal.Writing.{IsTouched, IsStored, header-Stores}
use operating_system_osv.Journal.Phases.{
  Outside, AllOutside, Mapped, Written, IsSafe, IsLogged, journal_blks-Recorded,
}
use operating_system_osv.Journal.Header.{
  IsCommitted, Begun, IsCommitted-same, header-IsSafe, header_apart, header-Post,
}
use operating_system_osv.Journal.Applying.{Applied, AllLogged, Home, Crashed, apply_journal-Home}

-- What a recovery would do from the layout in include/kernel/jbd.h: copy each block that the header
-- counts to the block that the map names.
pub replay_blks : ℕ → (ℕ → ℕ → ℕ) → ℕ → ℕ → (ℕ → ℕ → ℕ) → ℕ → ℕ → ℕ
replay_blks start disk zero i result = result
replay_blks start disk (suc n) i result =
    replay_blks start disk n (suc i)
      (update result (get_word (disk (start + 1)) i) (disk (start + (2 + i))))

pub replay : ℕ → (ℕ → ℕ → ℕ) → ℕ → ℕ → ℕ
unfolding replay_blks
replay start disk = replay_blks start disk (get_word (disk (start + 0)) 0) 0 disk

replay_lem :
    (start : ℕ) (content disk : ℕ → ℕ → ℕ) (bs : List ℕ) (i : ℕ) (result : ℕ → ℕ → ℕ) (x : ℕ)
    → Mapped i bs (disk (start + 1))
    → Written start content i bs disk
    → replay_blks start disk (length bs) i result x ≡ (if logged x bs then content x else result x)
unfolding replay_blks
replay_lem start content disk [] i result x m w = refl
replay_lem start content disk (b ∷ bs) i result x m w =
    ap₂ (λ (n : ℕ) (f : ℕ → ℕ). replay_blks start disk (length bs) (suc i) (update result n f) x)
      m.0 w.0
    ∙ replay_lem start content disk bs (suc i) (update result b (content b)) x m.1 w.1
    ∙ elim (ℕ_discrete b x) [ yes e ↦ ground (arith, e, ap content e) | no ne ↦ ground (arith, ne) ]

-- The header is erased; the blocks of the log are home, and no others have changed.
pub record IsDone (start : ℕ) (d0 : Dev) (log : List ℕ) (d : Dev) : Type 0 where
  pub header : get_word (d.disk (start + 0)) 0 ≡ 0
  pub disk :
      (x : ℕ) → Outside start x → d.disk x ≡ (if logged x log then d0.buffer x else d0.disk x)

pub data Crash (start : ℕ) (d0 : Dev) (log : List ℕ) (d : Dev) : Type 0 where
  safe : IsSafe start d0 d → Crash start d0 log d
  in_log : IsCommitted start d0 log d → Crash start d0 log d
  finished : IsDone start d0 log d → Crash start d0 log d

-- The old file system, or that with every block of the log at its logged content.
abbrev pub OldOrNew : ℕ → Dev → List ℕ → (ℕ → ℕ → ℕ) → Type 0
OldOrNew start d0 log disk =
    ((x : ℕ) → Outside start x → replay start disk x ≡ d0.disk x)
    ⊎ ((x : ℕ)
        → Outside start x
        → replay start disk x ≡ (if logged x log then d0.buffer x else d0.disk x))

replay_empty :
    (start : ℕ) (disk : ℕ → ℕ → ℕ) (x : ℕ)
    → get_word (disk (start + 0)) 0 ≡ 0
    → replay start disk x ≡ disk x
unfolding replay replay_blks
replay_empty start disk x e = rw e refl

Crash-OldOrNew :
    (start : ℕ) (d0 d : Dev) (log : List ℕ)
    → get_word (d0.disk (start + 0)) 0 ≡ 0
    → Crash start d0 log d
    → OldOrNew start d0 log d.disk
Crash-OldOrNew start d0 d log z (safe s) = inl (λ x o.
    replay_empty start d.disk x (ap (λ (f : ℕ → ℕ). get_word f 0) s.header ∙ z) ∙ s.disk x o)
Crash-OldOrNew start d0 d log z (finished s) =
    inr (λ x o. replay_empty start d.disk x s.header ∙ s.disk x o)
Crash-OldOrNew start d0 d log z (in_log s) = inr (λ x o. replayed x ∙ chosen x (s.disk x o))
  where
    replayed : (x : ℕ) → replay start d.disk x ≡ (if logged x log then d0.buffer x else d.disk x)
    replayed x =
        unfold replay in
        (rw s.header
          (replay_lem start d0.buffer d.disk log 0 d.disk x s.is_logged.map s.is_logged.blks))

    chosen :
        (x : ℕ)
        → (d.disk x ≡ d0.disk x) ⊎ ((logged x log ≡ true) × (d.disk x ≡ d0.buffer x))
        → (if logged x log then d0.buffer x else d.disk x)
          ≡ (if logged x log then d0.buffer x else d0.disk x)
    chosen x (inl e) = ap (λ (f : ℕ → ℕ). if logged x log then d0.buffer x else f) e
    chosen x (inr (l, e)) = rw l refl

-- erase_journal, when every block is home.
IsDone-at :
    (start : ℕ) (d0 d d' : Dev) (log : List ℕ) (c : ℕ → ℕ)
    → IsCommitted start d0 log d
    → Applied start d0 log d
    → get_word c 0 ≡ 0
    → d'.disk ≡ update d.disk (start + 0) c
    → IsDone start d0 log d'
IsDone-at start d0 d d' log c s f w e = record {
  header =
      ap (λ (g : ℕ → ℕ → ℕ). get_word (g (start + 0)) 0) e
      ∙ ap (λ (g : ℕ → ℕ). get_word g 0) at_self
      ∙ w;
  disk = λ x o.
      ap (λ (g : ℕ → ℕ → ℕ). g x) e
      ∙ other x (header_apart start x o)
      ∙ home x o (Bool-cases (logged x log)) (s.disk x o);
}
  where
    at_self : update d.disk (start + 0) c (start + 0) ≡ c
    at_self = ground arith

    other : (x : ℕ) → start + 0 ≢ x → update d.disk (start + 0) c x ≡ d.disk x
    other x ne = ground (arith, ne)

    home :
        (x : ℕ)
        → Outside start x
        → (logged x log ≡ true) ⊎ (logged x log ≡ false)
        → (d.disk x ≡ d0.disk x) ⊎ ((logged x log ≡ true) × (d.disk x ≡ d0.buffer x))
        → d.disk x ≡ (if logged x log then d0.buffer x else d0.disk x)
    home x o (inl l) h = rw l (f x o l)
    home x o (inr l) (inl h) = rw l h
    home x o (inr l) (inr (t, h)) = cc

-- How a commit ends when it succeeds: the power has failed on the way, or all is done.
abbrev pub Ended : ℕ → Dev → List ℕ → Dev → Type 0
Ended start d0 log d = (Crash start d0 log d × (d.power ≡ 0)) ⊎ IsDone start d0 log d

abbrev pub Commits : ℕ → Dev → List ℕ → Res (Unit {0}) × Dev → Type 0
Commits start d0 log = Post (Crash start d0 log) (λ _ d'. Ended start d0 log d')

erase-Commits :
    (start : ℕ) (d0 : Dev) (log : List ℕ) (d d' : Dev)
    → Home start d0 log log d d'
    → Commits start d0 log (write_journal_header start 0 d')
erase-Commits start d0 log d d' h =
    Post-weaken (IsTouched (start + 0) content d') _ (λ _ e. IsStored (start + 0) content d' e) _
      (write_journal_header start 0 d') (λ e t. touched e t t.disk h)
      (λ _ e z. stored e z.touched z.disk h) (header-Stores start 0 d')
  where
    content : ℕ → ℕ
    content = put_word (d'.buffer (start + 0)) 0 0

    erased : get_word content 0 ≡ 0
    erased = get_word-put_word_self (d'.buffer (start + 0)) 0 0 (omega arith)

    still :
        (e : Dev)
        → IsTouched (start + 0) content d' e
        → e.disk ≡ d'.disk
        → IsCommitted start d0 log d'
        → Crash start d0 log e
    still e t q s =
        in_log
          (IsCommitted-same start d0 log d' e s (λ x o. t.buffers x (header_apart start x o)) q)

    touched :
        (e : Dev)
        → IsTouched (start + 0) content d' e
        → (e.disk ≡ update d'.disk (start + 0) content) ⊎ (e.disk ≡ d'.disk)
        → Home start d0 log log d d'
        → Crash start d0 log e
    touched e t q (inl (s, z)) = safe (header-IsSafe start content d0 d' e s t (t.no_power z).0)
    touched e t (inr q) (inr (s, p, n)) = still e t q s
    touched e t (inl q) (inr (s, inl z, n)) = still e t (t.no_power z).0 s
    touched e t (inl q) (inr (s, inr (f, k), n)) =
        finished (IsDone-at start d0 d' e log content s f erased q)

    stored :
        (e : Dev)
        → IsTouched (start + 0) content d' e
        → (e.disk ≡ update d'.disk (start + 0) content) ⊎ ((e.disk ≡ d'.disk) × (e.power ≡ 0))
        → Home start d0 log log d d'
        → Ended start d0 log e
    stored e t q (inl (s, z)) =
        inl (safe (header-IsSafe start content d0 d' e s t (t.no_power z).0), (t.no_power z).1)
    stored e t (inr (q, z)) (inr (s, p, n)) = inl (still e t q s, z)
    stored e t (inl q) (inr (s, inl z, n)) = inl (still e t (t.no_power z).0 s, (t.no_power z).1)
    stored e t (inl q) (inr (s, inr (f, k), n)) =
        inr (IsDone-at start d0 d' e log content s f erased q)

Crashed-Crash :
    (start : ℕ) (d0 : Dev) (log : List ℕ) (d : Dev) → Crashed start d0 log d → Crash start d0 log d
Crashed-Crash start d0 log d (inl s) = safe s
Crashed-Crash start d0 log d (inr s) = in_log s

all_in : (log bs : List ℕ) → ((x : ℕ) → logged x bs ≡ true → logged x log ≡ true) → AllLogged log bs
all_in log [] h = tt
all_in log (b ∷ bs) h = (h b (ground arith), all_in log bs (λ x e. h x (ground (arith, e))))

pub publish-Home :
    (start : ℕ) (d0 : Dev) (log : List ℕ)
    → AllOutside start log
    → AreWords log
    → length log < 2 ^ 32
    → Post
        (Crashed start d0 log)
        (λ _ d'. (d : Dev) × Home start d0 log log d d')
        (publish start log d0)
unfolding publish
publish-Home start d0 log o ws short =
    Post-bind (Crashed start d0 log)
      (λ _ d. IsSafe start d0 d × ((d.power ≡ 0) ⊎ IsLogged start d0.buffer log d.disk)) _
      (write_journal_blks start log d0) _
      (Post-weaken (IsSafe start d0) (Crashed start d0 log) _ _ (write_journal_blks start log d0)
        (λ _ s. inl s) (λ _ _ s. s) (journal_blks-Recorded start d0 log o ws))
      (λ _ d s.
        Post-bind (Crashed start d0 log) (λ _ e. Begun start d0 log e) _
          (write_journal_header start (length log) d) (λ _. apply_journal start log)
          (header-Post start d0 log d short s.0 s.1)
          (λ _ e b.
            Post-weaken (Crashed start d0 log) (Crashed start d0 log) _ _
              (apply_journal start log e) (λ _ c. c) (λ _ f h. (e, h))
              (apply_journal-Home start d0 log log e o (all_in log log (λ x l. l)) b)))

-- Wherever commit_journal ends, and wherever the power fails on the way.
commit_journal-Commits :
    (start : ℕ) (d0 : Dev) (log : List ℕ)
    → AllOutside start log
    → AreWords log
    → length log < 2 ^ 32
    → Commits start d0 log (commit_journal start log d0)
unfolding commit_journal
commit_journal-Commits start d0 log o ws short =
    Post-bind (Crash start d0 log) (λ _ e. (d : Dev) × Home start d0 log log d e) _
      (publish start log d0) (λ _. write_journal_header start 0)
      (Post-weaken (Crashed start d0 log) (Crash start d0 log) _ _ (publish start log d0)
        (Crashed-Crash start d0 log) (λ _ _ h. h) (publish-Home start d0 log o ws short))
      (λ _ e h. erase-Commits start d0 log h.0 e h.1)

-- A commit that ends with ERR_OK and power left has erased the journal, with every block home.
abbrev pub Recovers : ℕ → Dev → List ℕ → Res (Unit {0}) × Dev → Type 0
Recovers start d0 log (ok _, d) =
    OldOrNew start d0 log d.disk × ((d.power ≡ 0) ⊎ IsDone start d0 log d)
Recovers start d0 log (nomem, d) = OldOrNew start d0 log d.disk
Recovers start d0 log (stuck, d) = OldOrNew start d0 log d.disk
Recovers start d0 log (panicked, d) = OldOrNew start d0 log d.disk

-- From an erased journal, and with the log outside the journal: wherever the power fails during
-- commit_journal, or wherever it gives up, copying the journal as its header says gives the old
-- contents of every block outside the journal, or, for the blocks of the log, all of their logged
-- contents and for the others the old ones. If the call succeeds with the power on, the journal is
-- erased and those contents are in place.
pub commit_journal-Recovers :
    (start : ℕ) (d0 : Dev) (log : List ℕ)
    → get_word (d0.disk (start + 0)) 0 ≡ 0
    → AllOutside start log
    → AreWords log
    → length log < 2 ^ 32
    → Recovers start d0 log (commit_journal start log d0)
commit_journal-Recovers start d0 log z o ws short =
    go (commit_journal start log d0) (commit_journal-Commits start d0 log o ws short)
  where
    go : (r : Res (Unit {0}) × Dev) → Commits start d0 log r → Recovers start d0 log r
    go (ok _, d) (inl (c, p)) = (Crash-OldOrNew start d0 d log z c, inl p)
    go (ok _, d) (inr s) = (Crash-OldOrNew start d0 d log z (finished s), inr s)
    go (nomem, d) c = Crash-OldOrNew start d0 d log z c
    go (stuck, d) c = Crash-OldOrNew start d0 d log z c
    go (panicked, d) c = Crash-OldOrNew start d0 d log z c
