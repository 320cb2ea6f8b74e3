-- ===== src/Pmem/Buddy/Owned.antt =====
-- Every page lies in exactly one block: a free one, or one that somebody holds. `held o` are the
-- first pages of the held blocks of order `o`; the pages below `pmem_start` are held for good.
use operating_system_osv.Base.{
  ℕ, zero, suc, ◌+◌, ◌-◌, ◌/◌, ◌%◌, ◌^◌, ◌≤◌, ◌<◌, ◌≡◌, refl, sym, ◌∙◌, ap, subst, ◌⊎◌, inl, inr,
  List, [], ◌∷◌, some, arith, In, pow_pos, even_block, pair_even, pair_odd, pow_add_one, block_head,
  ℕ_discrete, dec_lt,
}
use operating_system_osv.Pmem.Orders.{max_order}
use operating_system_osv.Pmem.Buddy.{Pmem, buddy_of}
use operating_system_osv.Pmem.Buddy.Cover.{
  inside, list_cover, levels, free_cover, IsWf, inside_double, inside_self, inside-le-levels,
}

pub record IsHeld (s : Pmem) (o i : ℕ) : Type 0 where
  pub has_order : s.order i ≡ o
  pub counted : 0 < s.refcnt i
  pub aligned : i % 2 ^ o ≡ 0
  pub within : i + 2 ^ o ≤ s.n_pages

pub record IsOwned (s : Pmem) (held : ℕ → List ℕ) : Type 0 where
  pub wf : IsWf s
  pub heads : (o i : ℕ) → o ≤ max_order → In i (held o) → IsHeld s o i
  pub total : (j : ℕ) → j < s.n_pages → free_cover s j + levels 11 held j ≡ 1

-- While a block is being freed it is neither: `p` is its first page.
pub record IsLoose (s : Pmem) (held : ℕ → List ℕ) (p : ℕ) : Type 0 where
  pub wf : IsWf s
  pub heads : (o i : ℕ) → o ≤ max_order → In i (held o) → IsHeld s o i
  pub order_le : s.order p ≤ max_order
  pub is_free : s.refcnt p ≡ 0
  pub aligned : p % 2 ^ s.order p ≡ 0
  pub positive : 0 < p
  pub within : p + 2 ^ s.order p ≤ s.n_pages
  pub total :
      (j : ℕ) → j < s.n_pages → free_cover s j + levels 11 held j + inside (s.order p) p j ≡ 1

-- A page that is covered lies in a listed block.
list_cover_witness :
    (o : ℕ) (xs : List ℕ) (j : ℕ) → 0 < list_cover o xs j → (i : ℕ) × In i xs × (inside o i j ≡ 1)
unfolding list_cover
list_cover_witness o [] j h = absurd (omega arith)
list_cover_witness o (x ∷ xs) j h = elim (ℕ_discrete (inside o x j) 1) [
  | yes e ↦ (x, inl refl, e)
  | no ne ↦ let (i, m, e) = list_cover_witness o xs j (ground (arith, ne)) in (i, inr m, e)
]

pub levels_witness :
    (n : ℕ) (f : ℕ → List ℕ) (j : ℕ)
    → 0 < levels n f j
    → (o : ℕ) × (i : ℕ) × (o < n) × In i (f o) × (inside o i j ≡ 1)
unfolding levels
levels_witness zero f j h = absurd (omega arith)
levels_witness (suc n) f j h = elim (dec_lt 0 (levels n f j)) [
  | yes lt ↦ let (o, i, l, m, e) = levels_witness n f j lt in (o, i, omega (arith, l), m, e)
  | no ge ↦ let (i, m, e) = list_cover_witness n (f n) j (omega arith) in (n, i, omega arith, m, e)
]

-- `p` and `b` are the two halves of the aligned pair at `c`.
pub record IsPair (o p b c : ℕ) : Type 0 where
  pub base : c % 2 ^ (o + 1) ≡ 0
  pub halves : ((c ≡ p) × (b ≡ p + 2 ^ o)) ⊎ ((c ≡ b) × (p ≡ b + 2 ^ o))

pub buddy_of-IsPair :
    (n p o b : ℕ) → p % 2 ^ o ≡ 0 → buddy_of n p o ≡ some b → (b < n) × ((c : ℕ) × IsPair o p b c)
unfolding buddy_of
buddy_of-IsPair n p o b a e = elim (ℕ_discrete (p / 2 ^ o % 2) 1) [
  | yes odd ↦
      let (le, base) = pair_odd o p a odd in
      let is : b ≡ p - 2 ^ o = ground (arith, odd, e) in
      (
        ground (arith, odd, e),
        (b, record { base = rw is base; halves = inr (refl, omega (arith, is, le)) }),
      )
  | no even ↦
      let is : b ≡ p + 2 ^ o = ground (arith, even, e) in
      (
        ground (arith, even, e),
        (p, record { base = pair_even o p a (omega (arith, even)); halves = inl (refl, is) }),
      )
]

inside_bounds : (k i b : ℕ) → inside k i b ≡ 1 → (i ≤ b) × (b < i + 2 ^ k)
inside_bounds k i b h = ground arith

not_inside : (k i p : ℕ) → inside k i p ≡ 0 → (p < i) ⊎ (i + 2 ^ k ≤ p)
not_inside k i p h = ground arith

pub pair_bounds :
    (o p b c : ℕ)
    → IsPair o p b c
    → (c ≤ p) × (p < c + 2 ^ (o + 1)) × (c ≤ b) × (b < c + 2 ^ (o + 1)) × (b % 2 ^ o ≡ 0)
pair_bounds o p b c q =
    let size = pow_add_one o in
    let pos = pow_pos o in
    let (c0, _, c2) = even_block o c q.base in
    elim q.halves [
      | inl (e, f) ↦ (
        omega (arith, e),
        omega (arith, e, size, pos),
        omega (arith, e, f),
        omega (arith, e, f, size, pos),
        ap (λ (n : ℕ). n % 2 ^ o) (f ∙ ap (λ (n : ℕ). n + 2 ^ o) (sym e)) ∙ c2,
      )
      | inr (e, f) ↦ (
        omega (arith, e, f),
        omega (arith, e, f, size, pos),
        omega (arith, e),
        omega (arith, e, size, pos),
        ap (λ (n : ℕ). n % 2 ^ o) (sym e) ∙ c0,
      )
    ]

-- A block that contains the buddy's first page but not `p` begins with it.
pub pair_head :
    (o p b c k i : ℕ) → IsPair o p b c → i % 2 ^ k ≡ 0 → inside k i b ≡ 1 → inside k i p ≡ 0 → i ≡ b
pair_head o p b c k i q hi hb hp =
    let (cp, pc, cb, bc, ab) = pair_bounds o p b c q in
    let (ib, bi) = inside_bounds k i b hb in
    (block_head o k c p b i q.base cp pc cb bc ab hi ib bi (not_inside k i p hp)).0

pub pair_inside :
    (o p b c j : ℕ) → IsPair o p b c → inside (o + 1) c j ≡ inside o p j + inside o b j
pair_inside o p b c j q = elim q.halves [
  | inl (e, f) ↦ rw (e, f) (inside_double o p j)
  | inr (e, f) ↦ rw (e, f) (inside_double o b j ∙ omega arith)
]

-- A page inside the loose block is in no free and in no held block.
pub loose_uncovered :
    (s : Pmem) (held : ℕ → List ℕ) (p j : ℕ)
    → IsLoose s held p
    → inside (s.order p) p j ≡ 1
    → (free_cover s j ≡ 0) × (levels 11 held j ≡ 0)
loose_uncovered s held p j v h =
    let (lo, hi) = inside_bounds (s.order p) p j h in
    let t = v.total j (omega (arith, v.within)) in (omega (arith, t, h), omega (arith, t, h))

-- A free buddy of the order of the loose block is on the free list of that order.
pub buddy_In :
    (s : Pmem) (held : ℕ → List ℕ) (p b c : ℕ)
    → IsLoose s held p
    → IsPair (s.order p) p b c
    → b < s.n_pages
    → s.refcnt b ≡ 0
    → s.order b ≡ s.order p
    → In b (s.free (s.order p))
buddy_In s held p b c v q lt free same =
    let t = v.total b lt in
    let apart : inside (s.order p) p b ≡ 0 = ground (arith, q.halves, pow_pos (s.order p)) in
    let (zf, zh) = loose_uncovered s held p p v (inside_self (s.order p) p) in
    elim (dec_lt 0 (free_cover s b)) [
      | yes pos ↦
          let (k, i, l, m, e) = levels_witness 11 s.free b pos in
          let w = v.wf.block k i (omega arith) m in
          let is =
            pair_head (s.order p) p b c k i q w.aligned e
              (omega (arith, inside-le-levels s.free k i p (omega arith) m, zf)) in
          let at : k ≡ s.order p = sym w.has_order ∙ ap s.order is ∙ same in
          subst (λ (n : ℕ). In b (s.free n)) at (subst (λ (n : ℕ). In n (s.free k)) is m)
      | no zero_cover ↦
          let (k, i, l, m, e) = levels_witness 11 held b (omega arith) in
          let w = v.heads k i (omega arith) m in
          let is =
            pair_head (s.order p) p b c k i q w.aligned e
              (omega (arith, inside-le-levels held k i p (omega arith) m, zh)) in
          absurd (omega (arith, w.counted, ap s.refcnt is, free))
    ]
