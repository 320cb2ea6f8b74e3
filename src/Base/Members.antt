-- ===== src/Base/Members.antt =====
-- Membership in a list of numbers as a type to match on, and the removal of one entry: what
-- list_remove does to a list of nodes.
use Prim.Native.Nat.{ℕ}
use mathlib.Core.Path.{◌≡◌, refl, sym, ◌∙◌, subst}
use mathlib.Core.Logic.{◌≢◌, ◌↔◌, ◌⊎◌, inl, inr}
use mathlib.Core.List.{List, [], ◌∷◌, ◌++◌}
use native.Mathlib.Omega.{arith}
use native.Mathlib.Decide.{ℕ_discrete}
use operating_system_osv.Base.Tests.{◌==◌, if◌then◌else◌, Bool-cases}

abbrev pub In : ℕ → List ℕ → Type 0
In p [] = ⊥
In p (x ∷ xs) = (p ≡ x) ⊎ In p xs

unfoldable pub erase : ℕ → List ℕ → List ℕ
erase p [] = []
erase p (x ∷ xs) = if p == x then xs else x ∷ erase p xs

pub In-tail : (p x : ℕ) (xs : List ℕ) → p ≢ x → In p (x ∷ xs) → In p xs
In-tail p x xs ne (inl e) = absurd (ne e)
In-tail p x xs ne (inr m) = m

pub In-erase : (p i : ℕ) (xs : List ℕ) → In i (erase p xs) → In i xs
unfolding erase
In-erase p i [] h = h
In-erase p i (x ∷ xs) h = elim (Bool-cases (p == x)) [
  | inl e ↦ inr (rw e at h)
  | inr e ↦ kept (In-erase p i xs) (rw e at h)
]
  where
    kept : (In i (erase p xs) → In i xs) → (i ≡ x) ⊎ In i (erase p xs) → (i ≡ x) ⊎ In i xs
    kept rest (inl q) = inl q
    kept rest (inr m) = inr (rest m)

pub In-snoc : (p i : ℕ) (xs : List ℕ) → In i (xs ++ (p ∷ [])) → In i xs ⊎ (i ≡ p)
In-snoc p i [] (inl e) = inr e
In-snoc p i [] (inr m) = elim m [ ]
In-snoc p i (x ∷ xs) (inl e) = inl (inl e)
In-snoc p i (x ∷ xs) (inr m) = shift (In-snoc p i xs m)
  where
    shift : In i xs ⊎ (i ≡ p) → In i (x ∷ xs) ⊎ (i ≡ p)
    shift (inl a) = inl (inr a)
    shift (inr b) = inr b

-- No entry stands twice.
abbrev pub Distinct : List ℕ → Type 0
Distinct [] = Unit
Distinct (x ∷ xs) = (In x xs → ⊥) × Distinct xs

pub In-append_left : (i : ℕ) (xs ys : List ℕ) → In i xs → In i (xs ++ ys)
In-append_left i [] ys h = elim h [ ]
In-append_left i (x ∷ xs) ys (inl e) = inl e
In-append_left i (x ∷ xs) ys (inr m) = inr (In-append_left i xs ys m)

pub In-append_last : (p : ℕ) (xs : List ℕ) → In p (xs ++ (p ∷ []))
In-append_last p [] = inl refl
In-append_last p (x ∷ xs) = inr (In-append_last p xs)

pub Distinct-snoc : (p : ℕ) (xs : List ℕ) → (In p xs → ⊥) → Distinct xs → Distinct (xs ++ (p ∷ []))
Distinct-snoc p [] h d = (λ m. m, tt)
Distinct-snoc p (x ∷ xs) h d =
    (λ m. last (In-snoc p x xs m), Distinct-snoc p xs (λ m. h (inr m)) d.1)
  where
    last : In x xs ⊎ (x ≡ p) → ⊥
    last (inl a) = d.0 a
    last (inr b) = h (inl (sym b))

pub Distinct-erase : (p : ℕ) (xs : List ℕ) → Distinct xs → Distinct (erase p xs)
unfolding erase
Distinct-erase p [] d = tt
Distinct-erase p (x ∷ xs) d = elim (Bool-cases (p == x)) [
  | inl e ↦ rw e d.1
  | inr e ↦ rw e (λ m. d.0 (In-erase p x xs m), Distinct-erase p xs d.1)
]

-- After its removal an entry of a list without repetitions is gone.
pub not_In-erase : (p : ℕ) (xs : List ℕ) → Distinct xs → In p (erase p xs) → ⊥
unfolding erase
not_In-erase p [] d m = m
not_In-erase p (x ∷ xs) d m = elim (Bool-cases (p == x)) [
  | inl e ↦ let q : p ≡ x = ground arith in d.0 (subst (λ n. In n xs) q (rw e at m))
  | inr e ↦
      let ne : p ≢ x = ground arith in
      not_In-erase p xs d.1 (In-tail p x (erase p xs) ne (rw e at m))
]

-- The removal of an entry keeps every other one.
pub erase-In : (p i : ℕ) (xs : List ℕ) → i ≢ p → In i xs → In i (erase p xs)
unfolding erase
erase-In p i [] ne m = m
erase-In p i (x ∷ xs) ne m = elim (Bool-cases (p == x)) [
  | inl e ↦ let q : p ≡ x = ground arith in rw e (In-tail i x xs (λ r. ne (r ∙ sym q)) m)
  | inr e ↦ rw e (kept (erase-In p i xs ne) m)
]
  where
    kept : (In i xs → In i (erase p xs)) → In i (x ∷ xs) → In i (x ∷ erase p xs)
    kept rest (inl q) = inl q
    kept rest (inr r) = inr (rest r)

-- An entry that moves from one list to the end of another leaves the same entries in the two.
pub moved-In :
    (p i : ℕ) (xs ys : List ℕ)
    → In p xs
    → (In i xs ⊎ In i ys) ↔ (In i (erase p xs) ⊎ In i (ys ++ (p ∷ [])))
moved-In p i xs ys here = (there, back)
  where
    there : In i xs ⊎ In i ys → In i (erase p xs) ⊎ In i (ys ++ (p ∷ []))
    there (inl m) = elim (ℕ_discrete i p) [
      | yes e ↦ inr (subst (λ n. In n (ys ++ (p ∷ []))) (sym e) (In-append_last p ys))
      | no ne ↦ inl (erase-In p i xs ne m)
    ]
    there (inr m) = inr (In-append_left i ys (p ∷ []) m)

    last : In i ys ⊎ (i ≡ p) → In i xs ⊎ In i ys
    last (inl m) = inr m
    last (inr e) = inl (subst (λ n. In n xs) (sym e) here)

    back : In i (erase p xs) ⊎ In i (ys ++ (p ∷ [])) → In i xs ⊎ In i ys
    back (inl m) = inl (In-erase p i xs m)
    back (inr m) = last (In-snoc p i ys m)
