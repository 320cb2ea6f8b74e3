-- ===== src/Paths/Walk.antt =====
-- A path made of names leads through the directories of these names.
use operating_system_osv.Base.{
  ℕ, zero, suc, ◌≤◌, ◌<◌, ◌≡◌, ◌≢◌, refl, ap, List, [], ◌∷◌, ◌++◌, Option, some, Bool,
  if◌then◌else◌, take, length, ftype, arith, inl, inr, Bool-cases,
}
use operating_system_osv.Paths.{
  slash, skip_slashes, element_of, after_element, path_next_element, Lookup, inode, missing, Parent,
  parent, fails, find_parent, step, go_on,
}

abbrev pub NoSlash : List ℕ → Type 0
NoSlash [] = Unit
NoSlash (c ∷ cs) = (c ≢ slash) × NoSlash cs

-- A name: at least one character, at most 63, no slash.
pub record IsName (n : List ℕ) : Type 0 where
  pub no_slash : NoSlash n
  pub nonempty : 0 < length n
  pub short : length n ≤ 63

-- `/a/b/c` for the names a, b and c.
pub join : List (List ℕ) → List ℕ
join [] = []
join (n ∷ ns) = slash ∷ (n ++ join ns)

abbrev pub AllNames : List (List ℕ) → Type 0
AllNames [] = Unit
AllNames (n ∷ ns) = IsName n × AllNames ns

take_all : (k : ℕ) (xs : List ℕ) → length xs ≤ k → take k xs ≡ xs
take_all zero [] h = refl
take_all zero (x ∷ xs) h = absurd (omega arith)
take_all (suc k) [] h = refl
take_all (suc k) (x ∷ xs) h = ap (λ ys. x ∷ ys) (take_all k xs (omega arith))

element_join : (n : List ℕ) (ns : List (List ℕ)) → NoSlash n → element_of (n ++ join ns) ≡ n
unfolding element_of join
element_join [] [] h = refl
element_join [] (m ∷ ms) h = refl
element_join (c ∷ cs) ns h = let ih = element_join cs ns h.1 in ground (arith, h.0, ih)

after_join : (n : List ℕ) (ns : List (List ℕ)) → NoSlash n → after_element (n ++ join ns) ≡ join ns
unfolding after_element join
after_join [] [] h = refl
after_join [] (m ∷ ms) h = refl
after_join (c ∷ cs) ns h = let ih = after_join cs ns h.1 in ground (arith, h.0, ih)

-- A path whose leading slashes have been skipped.
abbrev pub stripped : List (List ℕ) → List ℕ
stripped [] = []
stripped (n ∷ ns) = n ++ join ns

skip_name : (n rest : List ℕ) → NoSlash n → 0 < length n → skip_slashes (n ++ rest) ≡ n ++ rest
unfolding skip_slashes
skip_name [] rest h l = absurd (omega arith)
skip_name (c ∷ cs) rest h l = ground (arith, h.0)

skip_join : (ns : List (List ℕ)) → AllNames ns → skip_slashes (join ns) ≡ stripped ns
unfolding join skip_slashes
skip_join [] v = refl
skip_join (n ∷ ns) v = skip_name n (join ns) v.0.no_slash v.0.nonempty

skip_stripped : (ns : List (List ℕ)) → AllNames ns → skip_slashes (stripped ns) ≡ stripped ns
unfolding skip_slashes
skip_stripped [] v = refl
skip_stripped (n ∷ ns) v = skip_name n (join ns) v.0.no_slash v.0.nonempty

-- path_next_element takes the first name off a path, with or without its leading slash.
pub path_next_element_lem :
    (n : List ℕ) (ns : List (List ℕ)) (path : List ℕ)
    → AllNames (n ∷ ns)
    → skip_slashes path ≡ stripped (n ∷ ns)
    → path_next_element path ≡ (n, stripped ns)
unfolding path_next_element
path_next_element_lem n ns path v e =
    rw
      (
        e,
        element_join n ns v.0.no_slash,
        after_join n ns v.0.no_slash,
        take_all 63 n v.0.short,
        skip_join ns v.1,
      )
      refl

module _ (is_dir : ℕ → Bool) (lookup : ℕ → List ℕ → Lookup) where
  -- The specification, on the list of names.
  abbrev enter : (ℕ → Parent) → Lookup → Parent
  enter next (missing e) = fails e
  enter next (inode i) = next i

  pub resolve : ℕ → List ℕ → List (List ℕ) → Parent
  resolve curr n [] = if is_dir curr then parent curr n else fails ftype
  resolve curr n (m ∷ ms) =
      if is_dir curr then enter (λ i. resolve i m ms) (lookup curr n) else fails ftype

  find_parent-eq :
      (fuel curr : ℕ) (path name rest : List ℕ)
      → path_next_element path ≡ (name, rest)
      → find_parent is_dir lookup (suc fuel) curr path ≡ (
          if is_dir curr
          then step is_dir lookup (λ i. find_parent is_dir lookup fuel i rest) curr name rest
          else some (fails ftype))
  unfolding find_parent
  find_parent-eq fuel curr path name rest e =
      ap
        (λ (p : List ℕ × List ℕ).
          if is_dir curr
          then step is_dir lookup (λ i. find_parent is_dir lookup fuel i p.1) curr p.0 p.1
          else some (fails ftype))
        e

  entered :
      (next : ℕ → Option Parent) (spec : ℕ → Parent) (curr : ℕ) (n m rest : List ℕ)
      → ((i : ℕ) → next i ≡ some (spec i))
      → 0 < length m
      → step is_dir lookup next curr n (m ++ rest) ≡ some (enter spec (lookup curr n))
  unfolding step go_on
  entered next spec curr n [] rest h l = absurd (omega arith)
  entered next spec curr n (c ∷ cs) rest h l = go (lookup curr n)
    where
      go : (o : Lookup) → go_on is_dir lookup next o ≡ some (enter spec o)
      go (missing e) = refl
      go (inode i) = h i

  walks :
      (fuel curr : ℕ) (n : List ℕ) (ns : List (List ℕ)) (path : List ℕ)
      → AllNames (n ∷ ns)
      → skip_slashes path ≡ stripped (n ∷ ns)
      → length ns < fuel
      → find_parent is_dir lookup fuel curr path ≡ some (resolve curr n ns)
  unfolding resolve
  walks zero curr n ns path v e h = absurd (omega arith)
  walks (suc fuel) curr n [] path v e h =
      rw (find_parent-eq fuel curr path n [] (path_next_element_lem n [] path v e))
        (elim (Bool-cases (is_dir curr)) [ inl d ↦ rw d (unfold step in refl) | inr d ↦ rw d refl ])
  walks (suc fuel) curr n (m ∷ ms) path v e h =
      let rest = m ++ join ms in
      let deeper : (i : ℕ) → find_parent is_dir lookup fuel i rest ≡ some (resolve i m ms) =
        λ i. walks fuel i m ms rest v.1 (skip_stripped (m ∷ ms) v.1) (omega arith) in
      rw (find_parent-eq fuel curr path n rest (path_next_element_lem n (m ∷ ms) path v e))
        (elim (Bool-cases (is_dir curr)) [
          | inl d ↦ rw d (
              entered (λ i. find_parent is_dir lookup fuel i rest) (λ i. resolve i m ms) curr n m
                (join ms) deeper v.1.0.nonempty)
          | inr d ↦ rw d refl
        ])

-- For a path `/a/b/…/z` of names without slashes, not empty and of at most 63 characters, and with
-- fuel for each name, fs_find_parent_inode goes through the directories named by all but the last,
-- and answers the parent and the last name, or the first error on the way.
pub find_parent_lem :
    (is_dir : ℕ → Bool) (lookup : ℕ → List ℕ → Lookup) (fuel curr : ℕ) (n : List ℕ)
    (ns : List (List ℕ))
    → AllNames (n ∷ ns)
    → length ns < fuel
    → find_parent is_dir lookup fuel curr (join (n ∷ ns)) ≡ some (resolve is_dir lookup curr n ns)
find_parent_lem is_dir lookup fuel curr n ns v h =
    walks is_dir lookup fuel curr n ns (join (n ∷ ns)) v (skip_join (n ∷ ns) v) h
