-- ===== src/Proc/Waiting.antt =====
-- proc_wait: what a round finds in the process table.
use operating_system_osv.Base.{
  ℕ, ◌≡◌, refl, ◌∙◌, ap, List, [], ◌∷◌, ◌++◌, Bool, true, false, ◌&&◌, arith, In, inl, inr, ◌⊎◌,
  erase, Bool-cases,
}
use operating_system_osv.Proc.{
  Proc, World, is_wanted, Waited, reaps, no_child, again, scan, wait_section, reaped,
}

-- The exited processes of a list are none of those that the call asks for, the children of
-- `current`, all or the one with the pid.
abbrev pub NoneExited : ℕ → ℕ → (ℕ → Proc) → List ℕ → Type 0
NoneExited current pid proc xs =
    (i : ℕ) → In i xs → is_wanted current pid (proc i) && (proc i).has_exited ≡ false

-- `n` is the first process of the list that is asked for and has exited.
pub record IsReap (current pid : ℕ) (proc : ℕ → Proc) (xs : List ℕ) (n : ℕ) : Type 0 where
  pub wanted : is_wanted current pid (proc n) ≡ true
  pub exited : (proc n).has_exited ≡ true
  pub before : List ℕ
  pub after : List ℕ
  pub split : xs ≡ before ++ (n ∷ after)
  pub none_before : NoneExited current pid proc before

abbrev pub Answers : ℕ → ℕ → (ℕ → Proc) → Bool → List ℕ → Waited → Type 0
Answers current pid proc found xs (reaps n m status) =
    IsReap current pid proc xs n × (m ≡ (proc n).pid) × (status ≡ (proc n).exit_status)
Answers current pid proc found xs no_child =
    (found ≡ false) × ((i : ℕ) → In i xs → is_wanted current pid (proc i) ≡ false)
Answers current pid proc found xs again =
    ((found ≡ true) ⊎ ((i : ℕ) × In i xs × (is_wanted current pid (proc i) ≡ true)))
    × NoneExited current pid proc xs

more-NoneExited :
    (current pid : ℕ) (proc : ℕ → Proc) (x : ℕ) (xs : List ℕ)
    → is_wanted current pid (proc x) && (proc x).has_exited ≡ false
    → NoneExited current pid proc xs
    → NoneExited current pid proc (x ∷ xs)
more-NoneExited current pid proc x xs e h i (inl q) =
    ap (λ (n : ℕ). is_wanted current pid (proc n) && (proc n).has_exited) q ∙ e
more-NoneExited current pid proc x xs e h i (inr m) = h i m

more-IsReap :
    (current pid : ℕ) (proc : ℕ → Proc) (x : ℕ) (xs : List ℕ) (n : ℕ)
    → is_wanted current pid (proc x) && (proc x).has_exited ≡ false
    → IsReap current pid proc xs n
    → IsReap current pid proc (x ∷ xs) n
more-IsReap current pid proc x xs n e r = record {
  wanted = r.wanted;
  exited = r.exited;
  before = x ∷ r.before;
  after = r.after;
  split = ap (λ l. x ∷ l) r.split;
  none_before = more-NoneExited current pid proc x r.before e r.none_before;
}

past :
    (current pid : ℕ) (proc : ℕ → Proc) (found : Bool) (x : ℕ) (xs : List ℕ) (o : Waited)
    → is_wanted current pid (proc x) ≡ true
    → (proc x).has_exited ≡ false
    → Answers current pid proc true xs o
    → Answers current pid proc found (x ∷ xs) o
past current pid proc found x xs (reaps n m status) w e (a, p, q) =
    (more-IsReap current pid proc x xs n (ground (arith, w, e)) a, p, q)
past current pid proc found x xs no_child w e (h, _) = absurd (ground arith)
past current pid proc found x xs again w e (_, h) =
    (inr (x, inl refl, w), more-NoneExited current pid proc x xs (ground (arith, w, e)) h)

beside :
    (current pid : ℕ) (proc : ℕ → Proc) (found : Bool) (x : ℕ) (xs : List ℕ) (o : Waited)
    → is_wanted current pid (proc x) ≡ false
    → Answers current pid proc found xs o
    → Answers current pid proc found (x ∷ xs) o
beside current pid proc found x xs (reaps n m status) w (a, p, q) =
    (more-IsReap current pid proc x xs n (ground (arith, w)) a, p, q)
beside current pid proc found x xs no_child w (h, r) = (h, one_more)
  where
    one_more : (i : ℕ) → In i (x ∷ xs) → is_wanted current pid (proc i) ≡ false
    one_more i (inl q) = ap (λ (n : ℕ). is_wanted current pid (proc n)) q ∙ w
    one_more i (inr m) = r i m
beside current pid proc found x xs again w (a, h) =
    (there a, more-NoneExited current pid proc x xs (ground (arith, w)) h)
  where
    there :
        (found ≡ true) ⊎ ((i : ℕ) × In i xs × (is_wanted current pid (proc i) ≡ true))
        → (found ≡ true) ⊎ ((i : ℕ) × In i (x ∷ xs) × (is_wanted current pid (proc i) ≡ true))
    there (inl e) = inl e
    there (inr (i, m, e)) = inr (i, inr m, e)

scan-Answers :
    (current pid : ℕ) (proc : ℕ → Proc) (found : Bool) (xs : List ℕ)
    → Answers current pid proc found xs (scan current pid proc found xs)
unfolding scan
scan-Answers current pid proc false [] = (refl, λ i m. absurd m)
scan-Answers current pid proc true [] = (inl refl, λ i m. absurd m)
scan-Answers current pid proc found (x ∷ xs) = elim (Bool-cases (is_wanted current pid (proc x))) [
  | inl w ↦ elim (Bool-cases (proc x).has_exited) [
    | inl e ↦
        rw (w, e)
          (
            record {
              wanted = w;
              exited = e;
              before = [];
              after = xs;
              split = refl;
              none_before = λ i m. absurd m;
            },
            refl,
            refl,
          )
    | inr e ↦
        rw (w, e) (past current pid proc found x xs _ w e (scan-Answers current pid proc true xs))
  ]
  | inr w ↦ rw (w) (beside current pid proc found x xs _ w (scan-Answers current pid proc found xs))
]

-- What a call of proc_wait has done when its round ends.
abbrev pub Waits : ℕ → ℕ → World → Waited × World → Type 0
Waits current pid w (reaps n m status, w') =
    IsReap current pid w.proc w.ptable n
    × (m ≡ (w.proc n).pid)
    × (status ≡ (w.proc n).exit_status)
    × (w' ≡ record w { ptable = erase n w.ptable })
Waits current pid w (no_child, w') =
    ((i : ℕ) → In i w.ptable → is_wanted current pid (w.proc i) ≡ false) × (w' ≡ w)
Waits current pid w (again, w') =
    ((i : ℕ) × In i w.ptable × (is_wanted current pid (w.proc i) ≡ true))
    × NoneExited current pid w.proc w.ptable
    × (w' ≡ w)

-- A round of proc_wait reaps the first process of the table that is a child of the caller, has the
-- pid asked for, if one is, and has exited: it answers that child's pid and exit status and takes
-- it, and nothing else, out of the table. It fails with ERR_CHILD exactly if no child asked for is
-- in the table, and goes round again, changing nothing, exactly if there is one but none of them
-- has exited.
pub wait_section-Waits :
    (current pid : ℕ) (w : World) → Waits current pid w (wait_section current pid w)
unfolding wait_section reaped
wait_section-Waits current pid w =
    go (scan current pid w.proc false w.ptable) (scan-Answers current pid w.proc false w.ptable)
  where
    go :
        (o : Waited)
        → Answers current pid w.proc false w.ptable o
        → Waits current pid w (reaped w o)
    go (reaps n m status) (a, p, q) = (a, p, q, refl)
    go no_child (_, h) = (h, refl)
    go again (inl e, h) = absurd (ground arith)
    go again (inr x, h) = (x, h, refl)
