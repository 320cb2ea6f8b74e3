-- ===== src/Links/Ring.antt =====
-- A chain of links as a sequence of nodes, and what an append and an unlink do to it.
use operating_system_osv.Base.{
  ℕ, ◌≡◌, ◌≢◌, refl, sym, ◌∙◌, ap, subst, ◌⊎◌, inl, inr, List, [], ◌∷◌, ◌++◌, update, arith,
  ℕ_discrete, In, Distinct, erase, In-tail,
}

-- Following `next` from `a`, the nodes `xs` come and then `z`; `prev` leads back.
abbrev pub Linked : (ℕ → ℕ) → (ℕ → ℕ) → ℕ → List ℕ → ℕ → Type 0
Linked next prev a [] z = (next a ≡ z) × (prev z ≡ a)
Linked next prev a (x ∷ xs) z = (next a ≡ x) × (prev x ≡ a) × Linked next prev x xs z

last_In :
    (next prev : ℕ → ℕ) (a x : ℕ) (xs : List ℕ) (z : ℕ)
    → Linked next prev a (x ∷ xs) z
    → In (prev z) (x ∷ xs)
last_In next prev a x [] z l = inl l.2.1
last_In next prev a x (y ∷ ys) z l = inr (last_In next prev x y ys z l.2)

pub Linked-append :
    (next prev : ℕ → ℕ) (a n : ℕ) (xs : List ℕ) (z : ℕ)
    → Linked next prev a xs z
    → Distinct (a ∷ xs)
    → ¬ (In n (a ∷ xs))
    → ¬ (In z xs)
    → n ≢ z
    → Linked
        (update (update next (prev z) n) n z)
        (update (update prev n (prev z)) z n)
        a
        (xs ++ (n ∷ []))
        z
Linked-append next prev a n [] z l d f g ne =
    let a_n : a ≢ n = λ e. f (inl (sym e)) in
    (ground arith, ground arith, (ground arith, ground arith))
Linked-append next prev a n (x ∷ xs) z l d f g ne =
    let a_n : a ≢ n = λ e. f (inl (sym e)) in
    let x_n : x ≢ n = λ e. f (inr (inl (sym e))) in
    let x_z : x ≢ z = λ e. g (inl (sym e)) in
    let a_last : a ≢ prev z =
      λ e. d.0 (subst (λ m. In m (x ∷ xs)) (sym e) (last_In next prev a x xs z l)) in
    let (l0, l1, _) = l in
    (
      ground arith,
      ground arith,
      Linked-append next prev x n xs z l.2 d.1 (λ m. f (inr m)) (λ m. g (inr m)) ne,
    )

-- Links that agree at the nodes in question hold the same sequence.
Linked-frame :
    (next prev next' prev' : ℕ → ℕ) (a : ℕ) (xs : List ℕ) (z : ℕ)
    → ((i : ℕ) → In i (a ∷ xs) → next' i ≡ next i)
    → ((i : ℕ) → In i xs ⊎ (i ≡ z) → prev' i ≡ prev i)
    → Linked next prev a xs z
    → Linked next' prev' a xs z
Linked-frame next prev next' prev' a [] z f g l = (f a (inl refl) ∙ l.0, g z (inr refl) ∙ l.1)
Linked-frame next prev next' prev' a (x ∷ xs) z f g l = (
  f a (inl refl) ∙ l.0,
  g x (inl (inl refl)) ∙ l.1,
  Linked-frame next prev next' prev' x xs z (λ i m. f i (inr m)) (λ i m. g i (shift i m)) l.2,
)
  where
    shift : (i : ℕ) → In i xs ⊎ (i ≡ z) → In i (x ∷ xs) ⊎ (i ≡ z)
    shift i (inl m) = inl (inr m)
    shift i (inr e) = inr e

prev_In :
    (next prev : ℕ → ℕ) (a n : ℕ) (xs : List ℕ) (z : ℕ)
    → Linked next prev a xs z
    → In n xs
    → In (prev n) (a ∷ xs)
prev_In next prev a n [] z l m = elim m [ ]
prev_In next prev a n (x ∷ xs) z l (inl e) = inl (ap prev e ∙ l.1)
prev_In next prev a n (x ∷ xs) z l (inr m) = inr (prev_In next prev x n xs z l.2 m)

next_In :
    (next prev : ℕ → ℕ) (a n : ℕ) (xs : List ℕ) (z : ℕ)
    → Linked next prev a xs z
    → In n xs
    → In (next n) xs ⊎ (next n ≡ z)
next_In next prev a n [] z l m = elim m [ ]
next_In next prev a n (x ∷ []) z l (inl e) = inr (ap next e ∙ l.2.0)
next_In next prev a n (x ∷ y ∷ ys) z l (inl e) = inl (inr (inl (ap next e ∙ l.2.0)))
next_In next prev a n (x ∷ xs) z l (inr m) = shift (next_In next prev x n xs z l.2 m)
  where
    shift : In (next n) xs ⊎ (next n ≡ z) → In (next n) (x ∷ xs) ⊎ (next n ≡ z)
    shift (inl a) = inl (inr a)
    shift (inr b) = inr b

unlink_first :
    (next prev : ℕ → ℕ) (a x : ℕ) (xs : List ℕ) (z : ℕ)
    → Linked next prev a (x ∷ xs) z
    → Distinct (a ∷ x ∷ xs)
    → ¬ (In z (x ∷ xs))
    → Linked (update next (prev x) (next x)) (update prev (next x) (prev x)) a xs z
unlink_first next prev a x [] z l d g = let (l0, l1, (l2, l3)) = l in (ground arith, ground arith)
unlink_first next prev a x (y ∷ ys) z l d g =
    let (l0, l1, (l2, l3, _)) = l in
    (
      ground arith,
      ground arith,
      Linked-frame next prev _ _ y ys z
          (λ i m.
            let q : a ≢ i = λ e. d.0 (inr (subst (λ k. In k (y ∷ ys)) (sym e) m)) in ground arith)
          (λ i m. let q : y ≢ i = other i m in ground arith) l.2.2,
    )
  where
    other : (i : ℕ) → In i ys ⊎ (i ≡ z) → y ≢ i
    other i (inl m) e = d.1.1.0 (subst (λ k. In k ys) (sym e) m)
    other i (inr q) e = g (inr (inl (sym (e ∙ q))))

erase_first : (n x : ℕ) (xs : List ℕ) → n ≡ x → erase n (x ∷ xs) ≡ xs
unfolding erase
erase_first n x xs e = ground arith

erase_later : (n x : ℕ) (xs : List ℕ) → n ≢ x → erase n (x ∷ xs) ≡ x ∷ erase n xs
unfolding erase
erase_later n x xs ne = ground arith

pub Linked-remove :
    (next prev : ℕ → ℕ) (a n : ℕ) (xs : List ℕ) (z : ℕ)
    → Linked next prev a xs z
    → Distinct (a ∷ xs)
    → ¬ (In z xs)
    → In n xs
    → Linked (update next (prev n) (next n)) (update prev (next n) (prev n)) a (erase n xs) z
Linked-remove next prev a n [] z l d g m = elim m [ ]
Linked-remove next prev a n (x ∷ xs) z l d g m = elim (ℕ_discrete n x) [
  | yes e ↦ rw (erase_first n x xs e) (
      subst (λ k. Linked (update next (prev k) (next k)) (update prev (next k) (prev k)) a xs z)
        (sym e) (unlink_first next prev a x xs z l d g))
  | no ne ↦
      let here : In n xs = In-tail n x xs ne m in
      let (l0, l1, l2) = l in
      let before : prev n ≢ a =
        λ e. d.0 (subst (λ k. In k (x ∷ xs)) e (prev_In next prev x n xs z l2 here)) in
      let after : next n ≢ x = apart (next_In next prev x n xs z l2 here) in
      rw (erase_later n x xs ne)
        (ground arith, ground arith, Linked-remove next prev x n xs z l2 d.1 (λ q. g (inr q)) here)
]
  where
    apart : In (next n) xs ⊎ (next n ≡ z) → next n ≢ x
    apart (inl q) e = d.1.0 (subst (λ k. In k xs) e q)
    apart (inr q) e = g (inl (sym q ∙ e))
