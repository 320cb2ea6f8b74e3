-- ===== src/Links/Sequence.antt =====
-- The lists as sequences of nodes: list_append adds at the end, list_remove takes out the node.
use operating_system_osv.Base.{
  ℕ, ◌≡◌, ◌≢◌, ◌↔◌, refl, sym, subst, inl, List, [], ◌∷◌, ◌++◌, true, ◌==◌, ◌&&◌, if◌then◌else◌,
  update, arith, ℕ_discrete, In, Distinct, erase, Distinct-erase, Distinct-snoc, In-erase,
}
use operating_system_osv.Links.{Links, list_init, list_empty, list_append, list_remove}
use operating_system_osv.Links.Ring.{Linked, Linked-append, Linked-remove}

-- The list with header `h` holds the nodes `xs`, in order, each once and none the header.
pub record Holds (h : ℕ) (xs : List ℕ) (s : Links) : Type 0 where
  pub linked : Linked s.next s.prev h xs h
  pub distinct : Distinct (h ∷ xs)

append_next :
    (h n : ℕ) (s : Links)
    → (if list_empty h s then update s.next h n else update s.next (s.prev h) n)
      ≡ update s.next (s.prev h) n
unfolding list_empty
append_next h n s = elim (ℕ_discrete (s.prev h) h) [
  | yes e ↦ rw e (ground arith)
  | no ne ↦ ground arith
]

-- list_append of a node that is neither in the list nor its header adds it at the end: following
-- `next`, and `prev` backwards, gives the old nodes and then it.
pub list_append-Holds :
    (h n : ℕ) (xs : List ℕ) (s : Links)
    → Holds h xs s
    → ¬ (In n (h ∷ xs))
    → Holds h (xs ++ (n ∷ [])) (list_append h n s)
unfolding list_append
list_append-Holds h n xs s v f = record {
  linked =
      subst
        (λ nx.
          Linked (update nx n h) (update (update s.prev n (s.prev h)) h n) h (xs ++ (n ∷ [])) h)
        (sym (append_next h n s))
        (Linked-append s.next s.prev h n xs h v.linked v.distinct f v.distinct.0 (λ e. f (inl e)));
  distinct = Distinct-snoc n (h ∷ xs) f v.distinct;
}

remove_next : (n : ℕ) (next prev : ℕ → ℕ) → update next (prev n) (next n) n ≡ next n
remove_next n next prev = ground arith

-- list_remove of a node of the list takes it out and keeps the order of the others.
pub list_remove-Holds :
    (h n : ℕ) (xs : List ℕ) (s : Links)
    → Holds h xs s
    → In n xs
    → Holds h (erase n xs) (list_remove n s)
unfolding list_remove
list_remove-Holds h n xs s v m = record {
  linked =
      subst
        (λ k.
          Linked (update s.next (s.prev n) (s.next n)) (update s.prev k (s.prev n)) h (erase n xs)
            h)
        (sym (remove_next n s.next s.prev))
        (Linked-remove s.next s.prev h n xs h v.linked v.distinct v.distinct.0 m);
  distinct = ((λ q. v.distinct.0 (In-erase n h xs q)), Distinct-erase n xs v.distinct.1);
}

-- A list just initialised is empty, and list_empty says of any list whether it has no nodes.
pub list_empty_lem :
    (h : ℕ) (xs : List ℕ) (s : Links)
    → Holds h xs s
    → Holds h [] (list_init h s) × ((list_empty h s ≡ true) ↔ (xs ≡ []))
unfolding list_init list_empty
list_empty_lem h xs s v = (
  record { linked = (ground arith, ground arith); distinct = ((λ m. m), tt) },
  go xs v.linked v.distinct,
)
  where
    go :
        (ys : List ℕ)
        → Linked s.next s.prev h ys h
        → Distinct (h ∷ ys)
        → ((s.prev h == h) && (s.next h == h) ≡ true) ↔ (ys ≡ [])
    go [] l d = ((λ _. refl), λ _. ground (arith, l.0, l.1))
    go (y ∷ ys) l d =
        let ne : h ≢ y = λ e. d.0 (inl e) in
        ((λ q. absurd (let (l0, l1, _) = l in ground arith)), λ q. absurd (ground arith))
