-- ===== src/Pmem/Buddy/Cover.antt =====
-- Which pages the free lists cover, and how often: the measure by which blocks are disjoint and
-- none is lost.
use operating_system_osv.Base.{
  ℕ, zero, suc, ◌+◌, ◌%◌, ◌^◌, ◌≤◌, ◌<◌, ◌≡◌, refl, ◌∙◌, ap, List, [], ◌∷◌, ◌++◌, ltb, leb, ◌&&◌,
  if◌then◌else◌, update, arith, inl, inr, pow_pos, pow_double, ℕ_discrete, In, In-tail, erase,
}
use operating_system_osv.Pmem.Orders.{max_order}
use operating_system_osv.Pmem.Buddy.{Pmem}

-- 1 if page `j` lies in the block of order `o` at `i`, else 0.
abbrev pub inside : ℕ → ℕ → ℕ → ℕ
inside o i j = if leb i j && ltb j (i + 2 ^ o) then 1 else 0

unfoldable pub list_cover : ℕ → List ℕ → ℕ → ℕ
list_cover o [] j = 0
list_cover o (i ∷ is) j = inside o i j + list_cover o is j

-- The lists of the orders below `n`.
unfoldable pub levels : ℕ → (ℕ → List ℕ) → ℕ → ℕ
levels zero f j = 0
levels (suc n) f j = levels n f j + list_cover n (f n) j

abbrev pub free_cover : Pmem → ℕ → ℕ
free_cover s j = levels 11 s.free j

-- The entries of a free list are aligned free blocks of its order within memory, never page 0,
-- and no page lies in two of them.
pub record IsBlock (s : Pmem) (o i : ℕ) : Type 0 where
  pub has_order : s.order i ≡ o
  pub is_free : s.refcnt i ≡ 0
  pub aligned : i % 2 ^ o ≡ 0
  pub positive : 0 < i
  pub within : i + 2 ^ o ≤ s.n_pages

pub record IsWf (s : Pmem) : Type 0 where
  pub block : (o i : ℕ) → o ≤ max_order → In i (s.free o) → IsBlock s o i
  pub disjoint : (j : ℕ) → free_cover s j ≤ 1

pub inside_double : (o p j : ℕ) → inside (o + 1) p j ≡ inside o p j + inside o (p + 2 ^ o) j
inside_double o p j =
    let e : 2 ^ (o + 1) ≡ 2 ^ o + 2 ^ o = ap (λ (k : ℕ). 2 ^ k) (omega arith) ∙ pow_double o in
    ground (arith, pow_pos o)

pub inside_self : (o p : ℕ) → inside o p p ≡ 1
inside_self o p = ground (arith, pow_pos o)

pub list_cover-append :
    (o : ℕ) (xs ys : List ℕ) (j : ℕ)
    → list_cover o (xs ++ ys) j ≡ list_cover o xs j + list_cover o ys j
unfolding list_cover
list_cover-append o [] ys j = omega arith
list_cover-append o (x ∷ xs) ys j = omega (arith, list_cover-append o xs ys j)

pub list_cover-erase :
    (o p : ℕ) (xs : List ℕ) (j : ℕ)
    → In p xs
    → list_cover o (erase p xs) j + inside o p j ≡ list_cover o xs j
unfolding list_cover erase
list_cover-erase o p [] j h = elim h [ ]
list_cover-erase o p (x ∷ xs) j h = elim (ℕ_discrete p x) [
  | yes e ↦ ground arith
  | no ne ↦ ground (arith, list_cover-erase o p xs j (In-tail p x xs ne h))
]

levels-update_le :
    (n : ℕ) (f : ℕ → List ℕ) (o : ℕ) (xs : List ℕ) (j : ℕ)
    → n ≤ o
    → levels n (update f o xs) j ≡ levels n f j
unfolding levels
levels-update_le zero f o xs j h = refl
levels-update_le (suc n) f o xs j h = ground (arith, levels-update_le n f o xs j)

pub levels-update :
    (n : ℕ) (f : ℕ → List ℕ) (o : ℕ) (xs : List ℕ) (j : ℕ)
    → o < n
    → levels n (update f o xs) j + list_cover o (f o) j ≡ levels n f j + list_cover o xs j
unfolding levels
levels-update zero f o xs j h = absurd (omega arith)
levels-update (suc n) f o xs j h = elim (ℕ_discrete o n) [
  | yes e ↦ rw e (ground (arith, levels-update_le n f n xs j))
  | no ne ↦ ground (arith, levels-update n f o xs j)
]

list_cover-In : (o i : ℕ) (xs : List ℕ) (j : ℕ) → In i xs → inside o i j ≤ list_cover o xs j
unfolding list_cover
list_cover-In o i [] j h = elim h [ ]
list_cover-In o i (x ∷ xs) j (inl e) = rw e (omega arith)
list_cover-In o i (x ∷ xs) j (inr m) = omega (arith, list_cover-In o i xs j m)

levels-ge : (n o : ℕ) (f : ℕ → List ℕ) (j : ℕ) → o < n → list_cover o (f o) j ≤ levels n f j
unfolding levels
levels-ge zero o f j h = absurd (omega arith)
levels-ge (suc n) o f j h = elim (ℕ_discrete o n) [
  | yes e ↦ rw e (omega arith)
  | no ne ↦ omega (arith, levels-ge n o f j (omega arith))
]

-- A page in a listed block is covered.
pub inside-le-levels :
    (f : ℕ → List ℕ) (o i j : ℕ) → o ≤ max_order → In i (f o) → inside o i j ≤ levels 11 f j
inside-le-levels f o i j h m =
    omega (arith, list_cover-In o i (f o) j m, levels-ge 11 o f j (omega arith))

pub inside-le-free_cover :
    (s : Pmem) (o i j : ℕ) → o ≤ max_order → In i (s.free o) → inside o i j ≤ free_cover s j
inside-le-free_cover s o i j h m = inside-le-levels s.free o i j h m
