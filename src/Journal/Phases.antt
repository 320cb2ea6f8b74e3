-- ===== src/Journal/Phases.antt =====
-- commit_journal up to the header: the data blocks and the block map are in the journal, and nothing
-- else has changed.
use operating_system_osv.Base.{
  ℕ, suc, ◌+◌, ◌≤◌, ◌<◌, ◌≡◌, ◌≢◌, refl, ◌∙◌, ap, sym, ◌⊎◌, inl, inr, List, [], ◌∷◌, length, get_or,
  update, arith, ltb, Bool-cases,
}
use operating_system_osv.Disk.{Dev, Res}
use operating_system_osv.Disk.Words.{put_words, get_word, AreWords, get_word-put_words}
use operating_system_osv.Disk.Steps.{Post, Post-bind, Post-weaken}
use operating_system_osv.Journal.{
  write_data_blk, write_data_blks, write_bmap, write_journal_blks, journal_size,
}
use operating_system_osv.Journal.Writing.{IsTouched, IsStored, data-Stores, bmap-Stores}

-- The blocks that are not the journal's.
abbrev pub Outside : ℕ → ℕ → Type 0
Outside start x = (x < start) ⊎ (start + 130 ≤ x)

abbrev pub AllOutside : ℕ → List ℕ → Type 0
AllOutside start [] = Unit
AllOutside start (b ∷ bs) = Outside start b × AllOutside start bs

-- The entries from `i` on of the block map, and of the data blocks of the journal.
abbrev pub Mapped : ℕ → List ℕ → (ℕ → ℕ) → Type 0
Mapped i [] blk = Unit
Mapped i (b ∷ bs) blk = (get_word blk i ≡ b) × Mapped (suc i) bs blk

abbrev pub Written : ℕ → (ℕ → ℕ → ℕ) → ℕ → List ℕ → (ℕ → ℕ → ℕ) → Type 0
Written start content i [] disk = Unit
Written start content i (b ∷ bs) disk =
    (disk (start + (2 + i)) ≡ content b) × Written start content (suc i) bs disk

-- As `d0` outside the journal and, on the disk, at its header.
pub record IsSafe (start : ℕ) (d0 d : Dev) : Type 0 where
  pub disk : (x : ℕ) → Outside start x → d.disk x ≡ d0.disk x
  pub header : d.disk (start + 0) ≡ d0.disk (start + 0)
  pub buffers : (x : ℕ) → Outside start x → d.buffer x ≡ d0.buffer x

-- A step that writes a block of the journal, other than its header.
touched-IsSafe :
    (start k : ℕ) (c : ℕ → ℕ) (d0 d d' : Dev)
    → 0 < k
    → k < 130
    → IsSafe start d0 d
    → IsTouched (start + k) c d d'
    → IsSafe start d0 d'
touched-IsSafe start k c d0 d d' pos lt s t = record {
  disk = λ x o. other x (apart x o) t.disk ∙ s.disk x o;
  header = other (start + 0) (λ e. omega arith) t.disk ∙ s.header;
  buffers = λ x o. t.buffers x (apart x o) ∙ s.buffers x o;
}
  where
    apart : (x : ℕ) → Outside start x → start + k ≢ x
    apart x (inl l) e = omega arith
    apart x (inr l) e = omega arith

    other :
        (x : ℕ)
        → start + k ≢ x
        → (d'.disk ≡ update d.disk (start + k) c) ⊎ (d'.disk ≡ d.disk)
        → d'.disk x ≡ d.disk x
    other x ne (inl e) = ap (λ (f : ℕ → ℕ → ℕ). f x) e ∙ ground (arith, ne)
    other x ne (inr e) = ap (λ (f : ℕ → ℕ → ℕ). f x) e

-- What writing the entries from `i` on leaves alone.
pub record IsData (start i : ℕ) (d0 d d' : Dev) : Type 0 where
  pub safe : IsSafe start d0 d'
  pub below : (y : ℕ) → y < start + (2 + i) → d'.disk y ≡ d.disk y
  pub no_power : d.power ≡ 0 → d'.power ≡ 0

touched-below :
    (pb : ℕ) (c : ℕ → ℕ) (d d' : Dev)
    → IsTouched pb c d d'
    → (y : ℕ) → y < pb
    → d'.disk y ≡ d.disk y
touched-below pb c d d' t y lt = go t.disk
  where
    go : (d'.disk ≡ update d.disk pb c) ⊎ (d'.disk ≡ d.disk) → d'.disk y ≡ d.disk y
    go (inl e) = ap (λ (f : ℕ → ℕ → ℕ). f y) e ∙ ground arith
    go (inr e) = ap (λ (f : ℕ → ℕ → ℕ). f y) e

module _ (start : ℕ) (d0 : Dev) where
  DataPost : ℕ → List ℕ → Dev → Res (Unit {0}) × Dev → Type 0
  DataPost i bs d =
      Post (IsData start i d0 d)
        (λ _ d'. IsData start i d0 d d' × ((d'.power ≡ 0) ⊎ Written start d0.buffer i bs d'.disk))

  one-IsData :
      (i b : ℕ) (d : Dev)
      → i < 128
      → Outside start b
      → IsSafe start d0 d
      → Post
          (IsData start i d0 d)
          (λ _ d'.
            IsData start i d0 d d' × ((d'.power ≡ 0) ⊎ (d'.disk (start + (2 + i)) ≡ d0.buffer b)))
          (write_data_blk start i b d)
  one-IsData i b d lt o s =
      Post-weaken (IsTouched (start + (2 + i)) (d.buffer b) d) (IsData start i d0 d)
        (λ _ d'. IsStored (start + (2 + i)) (d.buffer b) d d') _ (write_data_blk start i b d)
        (λ d' t. kept d' t) (λ _ d' z. (kept d' z.touched, stored d' z.disk))
        (data-Stores start i b d)
    where
      kept : (d' : Dev) → IsTouched (start + (2 + i)) (d.buffer b) d d' → IsData start i d0 d d'
      kept d' t = record {
        safe = touched-IsSafe start (2 + i) (d.buffer b) d0 d d' (omega arith) (omega arith) s t;
        below = touched-below (start + (2 + i)) (d.buffer b) d d' t;
        no_power = λ e. (t.no_power e).1;
      }

      stored :
          (d' : Dev)
          → (d'.disk ≡ update d.disk (start + (2 + i)) (d.buffer b))
            ⊎ ((d'.disk ≡ d.disk) × (d'.power ≡ 0))
          → (d'.power ≡ 0) ⊎ (d'.disk (start + (2 + i)) ≡ d0.buffer b)
      stored d' (inl e) =
          inr (ap (λ (f : ℕ → ℕ → ℕ). f (start + (2 + i))) e ∙ at_self ∙ s.buffers b o)
        where
          at_self : update d.disk (start + (2 + i)) (d.buffer b) (start + (2 + i)) ≡ d.buffer b
          at_self = ground arith
      stored d' (inr (e, z)) = inl z

  data_blks-DataPost :
      (bs : List ℕ) (i : ℕ) (d : Dev)
      → i + length bs ≤ 128
      → AllOutside start bs
      → IsSafe start d0 d
      → DataPost i bs d (write_data_blks start i bs d)
  unfolding write_data_blks DataPost
  data_blks-DataPost [] i d l o s =
      (record { safe = s; below = λ y _. refl; no_power = λ e. e }, inr tt)
  data_blks-DataPost (b ∷ bs) i d l o s =
      Post-bind (IsData start i d0 d)
        (λ _ d'.
          IsData start i d0 d d' × ((d'.power ≡ 0) ⊎ (d'.disk (start + (2 + i)) ≡ d0.buffer b)))
        _ (write_data_blk start i b d) (λ _. write_data_blks start (suc i) bs)
        (one-IsData i b d (omega arith) o.0 s)
        (λ _ d' q.
          Post-weaken (IsData start (suc i) d0 d') (IsData start i d0 d) _ _
            (write_data_blks start (suc i) bs d') (λ e r. further d' e q.0 r)
            (λ _ e r. (further d' e q.0 r.0, both d' e q.1 r.0 r.1))
            (data_blks-DataPost bs (suc i) d' (omega arith) o.1 q.0.safe))
    where
      further :
          (d' e : Dev)
          → IsData start i d0 d d'
          → IsData start (suc i) d0 d' e
          → IsData start i d0 d e
      further d' e q r = record {
        safe = r.safe;
        below = λ y lt. r.below y (omega arith) ∙ q.below y lt;
        no_power = λ z. r.no_power (q.no_power z);
      }

      both :
          (d' e : Dev)
          → (d'.power ≡ 0) ⊎ (d'.disk (start + (2 + i)) ≡ d0.buffer b)
          → IsData start (suc i) d0 d' e
          → (e.power ≡ 0) ⊎ Written start d0.buffer (suc i) bs e.disk
          → (e.power ≡ 0) ⊎ Written start d0.buffer i (b ∷ bs) e.disk
      both d' e (inl z) r w = inl (r.no_power z)
      both d' e (inr x) r (inl z) = inl z
      both d' e (inr x) r (inr w) = inr (r.below (start + (2 + i)) (omega arith) ∙ x, w)

-- The whole log, as the block map and the data blocks of the journal have it.
pub record IsLogged (start : ℕ) (content : ℕ → ℕ → ℕ) (log : List ℕ) (disk : ℕ → ℕ → ℕ)
    : Type 0 where
  pub short : length log < 128
  pub map : Mapped 0 log (disk (start + 1))
  pub blks : Written start content 0 log disk

pub Written-same :
    (start : ℕ) (content disk disk' : ℕ → ℕ → ℕ) (bs : List ℕ) (i : ℕ)
    → ((k : ℕ) → k < i + length bs → disk' (start + (2 + k)) ≡ disk (start + (2 + k)))
    → Written start content i bs disk
    → Written start content i bs disk'
Written-same start content disk disk' [] i h w = tt
Written-same start content disk disk' (b ∷ bs) i h w = (
  h i (omega arith) ∙ w.0,
  Written-same start content disk disk' bs (suc i) (λ k l. h k (omega arith)) w.1,
)

Mapped-all :
    (blk : ℕ → ℕ) (bs : List ℕ) (i : ℕ)
    → ((k : ℕ) → k < length bs → get_word blk (i + k) ≡ get_or bs k 0)
    → Mapped i bs blk
Mapped-all blk [] i h = tt
Mapped-all blk (b ∷ bs) i h =
    let e : i + 0 ≡ i = omega arith in
    (
      ap (get_word blk) (sym e) ∙ h 0 (omega arith),
      Mapped-all blk bs (suc i) (λ k lt.
          let f : suc i + k ≡ i + suc k = omega arith in
          ap (get_word blk) f ∙ h (suc k) (omega arith)),
    )

module _ (start : ℕ) (d0 : Dev) (log : List ℕ) where
  -- The end of write_journal_blks.
  abbrev pub Recorded : Res (Unit {0}) × Dev → Type 0
  Recorded =
      Post (IsSafe start d0)
        (λ _ d'. IsSafe start d0 d' × ((d'.power ≡ 0) ⊎ IsLogged start d0.buffer log d'.disk))

bmap-Recorded :
    (start : ℕ) (d0 : Dev) (log : List ℕ) (d : Dev)
    → AreWords log
    → length log < 128
    → IsSafe start d0 d
    → (d.power ≡ 0) ⊎ Written start d0.buffer 0 log d.disk
    → Recorded start d0 log (write_bmap start log d)
bmap-Recorded start d0 [] d ws l s w =
    unfold write_bmap in (s, inr (record { short = l; map = tt; blks = tt }))
bmap-Recorded start d0 (b ∷ bs) d ws l s w =
    Post-weaken (IsTouched (start + 1) content d) (IsSafe start d0)
      (λ _ d'. IsStored (start + 1) content d d') _ (write_bmap start (b ∷ bs) d)
      (λ d' t. touched-IsSafe start 1 content d0 d d' (omega arith) (omega arith) s t)
      (λ _ d' z. (
        touched-IsSafe start 1 content d0 d d' (omega arith) (omega arith) s z.touched,
        recorded d' z.touched z.disk w,
      ))
      (bmap-Stores start b bs d)
  where
    content : ℕ → ℕ
    content = put_words (d.buffer (start + 1)) 0 (b ∷ bs)

    at_self : update d.disk (start + 1) content (start + 1) ≡ content
    at_self = ground arith

    other : (k : ℕ) → update d.disk (start + 1) content (start + (2 + k)) ≡ d.disk (start + (2 + k))
    other k = ground arith

    recorded :
        (d' : Dev)
        → IsTouched (start + 1) content d d'
        → (d'.disk ≡ update d.disk (start + 1) content) ⊎ ((d'.disk ≡ d.disk) × (d'.power ≡ 0))
        → (d.power ≡ 0) ⊎ Written start d0.buffer 0 (b ∷ bs) d.disk
        → (d'.power ≡ 0) ⊎ IsLogged start d0.buffer (b ∷ bs) d'.disk
    recorded d' t (inr (e, z)) v = inl z
    recorded d' t (inl e) (inl z) = inl (t.no_power z).1
    recorded d' t (inl e) (inr v) = inr (record {
      short = l;
      map = Mapped-all (d'.disk (start + 1)) (b ∷ bs) 0 (λ k lt.
          ap (λ (f : ℕ → ℕ → ℕ). get_word (f (start + 1)) (0 + k)) e
          ∙ ap (λ (f : ℕ → ℕ). get_word f (0 + k)) at_self
          ∙ get_word-put_words (b ∷ bs) (d.buffer (start + 1)) 0 k ws lt);
      blks =
          Written-same start d0.buffer d.disk d'.disk (b ∷ bs) 0
            (λ k _. ap (λ (f : ℕ → ℕ → ℕ). f (start + (2 + k))) e ∙ other k) v;
    })

pub journal_blks-Recorded :
    (start : ℕ) (d0 : Dev) (log : List ℕ)
    → AllOutside start log
    → AreWords log
    → Recorded start d0 log (write_journal_blks start log d0)
unfolding write_journal_blks
journal_blks-Recorded start d0 log o ws = elim (Bool-cases (ltb (length log) journal_size)) [
  | inr e ↦ rw e initial
  | inl e ↦ rw e (
      Post-bind (IsSafe start d0)
        (λ _ d'. IsData start 0 d0 d0 d' × ((d'.power ≡ 0) ⊎ Written start d0.buffer 0 log d'.disk))
        _ (write_data_blks start 0 log d0) (λ _. write_bmap start log)
        (Post-weaken (IsData start 0 d0 d0) (IsSafe start d0) _ _ (write_data_blks start 0 log d0)
          (λ d' q. q.safe) (λ _ d' q. q)
          (unfold DataPost in (data_blks-DataPost start d0 log 0 d0 (ground arith) o initial)))
        (λ _ d' q. bmap-Recorded start d0 log d' ws (ground arith) q.0.safe q.1))
]
  where
    initial : IsSafe start d0 d0
    initial = record { disk = λ x _. refl; header = refl; buffers = λ x _. refl }
