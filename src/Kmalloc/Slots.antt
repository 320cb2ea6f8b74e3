-- ===== src/Kmalloc/Slots.antt =====
-- One slab: its free list is a stack of distinct slots, and sizes and addresses are consistent.
use native.Mathlib.Nat.{div-mul-le_self, le-div_iff_mul-le, mul-add-div, div-eq_of_lt}
use operating_system_osv.Base.{
  ℕ, zero, suc, ◌+◌, ◌-◌, ◌*◌, ◌/◌, ◌≤◌, ◌<◌, ◌≡◌, ◌≢◌, refl, sym, ◌∙◌, ap, subst, List, [], ◌∷◌,
  Option, none, some, ltb, if◌then◌else◌, arith, length, length-set, get_or, set, get_or-set_self,
  get_or-set_ne, In, ◌⊎◌, inl, inr,
}
use operating_system_osv.Kmalloc.{
  pg_size, min_objs_per_slab, slab_pages, slab_objs, Slab, free_indices, new_slab, take_slot,
  give_slot, slot_address, slot_index, kmalloc_class,
}

-- The slots on the free list that begins at `free`, in order, all different and in range.
abbrev pub Chain : List (Option ℕ) → Option ℕ → List ℕ → Type 0
Chain arr none [] = Unit
Chain arr none (i ∷ is) = ⊥
Chain arr (some i) [] = ⊥
Chain arr (some i) (j ∷ js) =
    (i ≡ j) × (i < length arr) × (In i js → ⊥) × Chain arr (get_or arr i none) js

abbrev pub Holds : Slab → List ℕ → Type 0
Holds s is = Chain s.freearr s.free is

-- A write at a slot that is not on the list leaves the list.
Chain-set :
    (arr : List (Option ℕ)) (o v : Option ℕ) (k : ℕ) (is : List ℕ)
    → (In k is → ⊥)
    → Chain arr o is
    → Chain (set arr k v) o is
Chain-set arr none v k [] h c = tt
Chain-set arr none v k (i ∷ is) h c = elim c [ ]
Chain-set arr (some i) v k [] h c = elim c [ ]
Chain-set arr (some i) v k (j ∷ js) h c =
    let ne : k ≢ i = λ e. h (inl (e ∙ c.0)) in
    (
      c.0,
      omega (arith, c.1, length-set arr k v),
      c.2,
      rw (get_or-set_ne arr v none ne)
          (Chain-set arr (get_or arr i none) v k js (λ m. h (inr m)) c.3),
    )

-- kmem_cache_alloc takes the first slot of the free list and leaves the rest.
pub take_slot-Holds :
    (s : Slab) (i : ℕ) (is : List ℕ)
    → Holds s (i ∷ is)
    → (s' : Slab) × (take_slot s ≡ some (i, s'))
      × Holds s' is
      × (length s'.freearr ≡ length s.freearr)
unfolding take_slot
take_slot-Holds s i is c = go s.free refl c
  where
    go :
        (o : Option ℕ)
        → s.free ≡ o
        → Chain s.freearr o (i ∷ is)
        → (s' : Slab) × (take_slot s ≡ some (i, s'))
          × Holds s' is
          × (length s'.freearr ≡ length s.freearr)
    go none e c = elim c [ ]
    go (some j) e c = (record s { free = get_or s.freearr j none }, ground (arith, c.0), c.3, refl)

-- kmem_cache_free puts a slot that is not on the free list in front of it.
pub give_slot-Holds :
    (s : Slab) (i : ℕ) (is : List ℕ)
    → Holds s is
    → i < length s.freearr
    → (In i is → ⊥)
    → Holds (give_slot i s) (i ∷ is)
unfolding give_slot
give_slot-Holds s i is c lt h = (
  refl,
  rw (length-set s.freearr i s.free) lt,
  h,
  rw (get_or-set_self s.freearr i s.free none lt) (Chain-set s.freearr s.free s.free i is h c),
)

abbrev pub count_up : ℕ → ℕ → List ℕ
count_up zero i = []
count_up (suc n) i = i ∷ count_up n (i + 1)

get_or-free_indices :
    (n i k : ℕ)
    → get_or (free_indices n i) k none ≡ (if ltb (k + 1) n then some (i + k + 1) else none)
unfolding free_indices
get_or-free_indices zero i k = ground arith
get_or-free_indices (suc zero) i zero = ground arith
get_or-free_indices (suc zero) i (suc k) = ground arith
get_or-free_indices (suc (suc n)) i zero = ground arith
get_or-free_indices (suc (suc n)) i (suc k) = ground (arith, get_or-free_indices (suc n) (i + 1) k)

length-free_indices : (n i : ℕ) → length (free_indices n i) ≡ n
unfolding free_indices
length-free_indices zero i = refl
length-free_indices (suc zero) i = refl
length-free_indices (suc (suc n)) i = ap suc (length-free_indices (suc n) (i + 1))

In-count_up : (m j i : ℕ) → In i (count_up m j) → j ≤ i
In-count_up zero j i h = elim h [ ]
In-count_up (suc m) j i (inl e) = omega arith
In-count_up (suc m) j i (inr h) = omega (arith, In-count_up m (j + 1) i h)

Chain-up : (n m j : ℕ) → suc m + j ≡ n → Chain (free_indices n 0) (some j) (count_up (suc m) j)
Chain-up n zero j e = (
  refl,
  omega (arith, length-free_indices n 0),
  λ h. h,
  rw (get_or-free_indices n 0 j) (ground arith),
)
Chain-up n (suc m) j e = (
  refl,
  omega (arith, length-free_indices n 0),
  λ h. omega (arith, In-count_up (suc m) (j + 1) j h),
  subst (λ o. Chain (free_indices n 0) o (count_up (suc m) (j + 1))) (sym next)
      (Chain-up n m (j + 1) (omega arith)),
)
  where
    next : get_or (free_indices n 0) j none ≡ some (j + 1)
    next = ground (arith, get_or-free_indices n 0 j)

-- A new slab of `n` objects holds the slots from 0 to `n - 1`, each once.
pub new_slab-Holds : (n : ℕ) → 0 < n → Holds (new_slab n) (count_up n 0)
unfolding new_slab
new_slab-Holds zero h = absurd (omega arith)
new_slab-Holds (suc n) h = Chain-up (suc n) n 0 (omega arith)

-- The pages of a slab hold its header, its index array and its objects, of which there are at
-- least 128.
pub slab_objs_bounds :
    (header obj_size : ℕ)
    → (header + slab_objs header obj_size * (obj_size + 4) ≤ slab_pages header obj_size * pg_size)
      × (min_objs_per_slab ≤ slab_objs header obj_size)
unfolding slab_objs slab_pages
slab_objs_bounds header obj_size =
    let bytes = header + (obj_size + 4) * min_objs_per_slab in
    let room : bytes ≤ (bytes + pg_size - 1) / pg_size * pg_size = omega arith in
    let space = (bytes + pg_size - 1) / pg_size * pg_size - header in
    let most : space / (obj_size + 4) * (obj_size + 4) ≤ space =
      div-mul-le_self space (obj_size + 4) in
    (
      omega arith,
      (le-div_iff_mul-le {k = obj_size + 4} {x = min_objs_per_slab} {y = space} (omega arith)).1
          (omega arith),
    )

-- kmem_cache_free recovers the slot from the address of any byte of the object.
pub slot_index-address :
    (objs obj_size i k : ℕ)
    → k < obj_size
    → slot_index objs obj_size (slot_address objs obj_size i + k) ≡ i
unfolding slot_index slot_address
slot_index-address objs obj_size i k h =
    let e : objs + obj_size * i + k - objs ≡ obj_size * i + k = omega arith in
    rw e (mul-add-div (omega arith) i k ∙ ap (λ n. i + n) (div-eq_of_lt h) ∙ omega arith)

-- What kmalloc's classes are: the least power of two from 32 to 4096 that is enough.
abbrev pub IsClass : ℕ → Option ℕ → Type 0
IsClass size none = (size ≡ 0) ⊎ (4096 < size)
IsClass size (some c) =
    (size ≤ c) × (0 < size) × (32 ≤ c) × (c ≤ 4096) × ((c ≡ 32) ⊎ (c < 2 * size))

-- kmalloc answers NULL for size 0 and for more than 4096 bytes, and else allocates from the least
-- class that is large enough: less than twice the size, or 32.
pub kmalloc_class_lem : (size : ℕ) → IsClass size (kmalloc_class size)
unfolding kmalloc_class
kmalloc_class_lem size = ground arith
