-- ===== src/Str/Compare.antt =====
-- strlen, memcmp and strcmp.
use operating_system_osv.Base.{
  ℕ, zero, suc, ◌+◌, ◌<◌, ◌≡◌, ◌≢◌, refl, sym, ◌∙◌, ◌↔◌, ◌⊎◌, inl, inr, Option, none, some, arith,
  ℕ_discrete,
}
use operating_system_osv.Str.{Memory, strlen, memcmp, strcmp, char_diff}
use operating_system_osv.Str.Strncpy.{HasLength}

-- The `n` bytes at `p1` are those at `p2`.
abbrev pub Agree : ℕ → ℕ → ℕ → Memory → Type 0
Agree zero p1 p2 b = Unit
Agree (suc n) p1 p2 b = (b p1 ≡ b p2) × Agree n (p1 + 1) (p2 + 1) b

abbrev pub IsBytes : Memory → Type 0
IsBytes b = (i : ℕ) → b i < 256

-- With enough fuel strlen gives the length of the string.
pub strlen_lem : (fuel k s : ℕ) (b : Memory) → k < fuel → HasLength k s b → strlen fuel s b ≡ some k
unfolding strlen
strlen_lem zero k s b h l = absurd (omega arith)
strlen_lem (suc fuel) zero s b h l = ground (arith, l)
strlen_lem (suc fuel) (suc k) s b h l =
    let ih = strlen_lem fuel k (s + 1) b (omega arith) l.1 in rw ih (ground (arith, l.0))

-- memcmp gives 0 exactly if the ranges agree.
pub memcmp_lem : (p1 p2 n : ℕ) (b : Memory) → IsBytes b → (memcmp p1 p2 n b ≡ 0) ↔ Agree n p1 p2 b
unfolding memcmp
memcmp_lem p1 p2 zero b y = ((λ _. tt), λ _. refl)
memcmp_lem p1 p2 (suc n) b y = elim (ℕ_discrete (b p1) (b p2)) [
  | yes e ↦
      let ih = memcmp_lem (p1 + 1) (p2 + 1) n b y in
      let same : memcmp p1 p2 (suc n) b ≡ memcmp (p1 + 1) (p2 + 1) n b = ground (arith, e) in
      ((λ q. (e, ih.0 (sym same ∙ q))), λ a. same ∙ ih.1 a.1)
  | no ne ↦
      let differ : memcmp p1 p2 (suc n) b ≢ 0 = ground (arith, y p1, y p2) in
      ((λ q. absurd (differ q)), λ a. absurd (ne a.0))
]

-- What strcmp answers for a string of length `k` and another: the result is 0 exactly if they
-- agree up to the first one's NUL.
abbrev pub Compares : ℕ → ℕ → ℕ → Memory → Option ℕ → Type 0
Compares k s1 s2 b none = ⊥
Compares k s1 s2 b (some r) = (r ≡ 0) ↔ Agree (suc k) s1 s2 b

char_diff_zero : (x y : ℕ) → x < 256 → y < 256 → char_diff x y ≡ 0 → x ≡ y
char_diff_zero x y hx hy h = ground arith

char_diff_self : (x y : ℕ) → x < 256 → x ≡ y → char_diff x y ≡ 0
char_diff_self x y h e = ground arith

strcmp_stop :
    (fuel s1 s2 : ℕ) (b : Memory)
    → (b s1 ≡ 0) ⊎ (b s1 ≢ b s2)
    → strcmp (suc fuel) s1 s2 b ≡ some (char_diff (b s1) (b s2))
unfolding strcmp
strcmp_stop fuel s1 s2 b h = ground arith

strcmp_go :
    (fuel s1 s2 : ℕ) (b : Memory)
    → b s1 ≢ 0
    → b s1 ≡ b s2
    → strcmp (suc fuel) s1 s2 b ≡ strcmp fuel (s1 + 1) (s2 + 1) b
unfolding strcmp
strcmp_go fuel s1 s2 b h e = ground arith

longer :
    (k s1 s2 : ℕ) (b : Memory) (o : Option ℕ)
    → b s1 ≡ b s2
    → Compares k (s1 + 1) (s2 + 1) b o
    → Compares (suc k) s1 s2 b o
longer k s1 s2 b none e c = c
longer k s1 s2 b (some r) e c = ((λ q. (e, c.0 q)), λ a. c.1 a.1)

-- Enough fuel for the first string is enough for strcmp, which gives 0 exactly if the two strings
-- are the same.
pub strcmp_lem :
    (fuel k s1 s2 : ℕ) (b : Memory)
    → k < fuel
    → HasLength k s1 b
    → IsBytes b
    → Compares k s1 s2 b (strcmp fuel s1 s2 b)
strcmp_lem zero k s1 s2 b h l y = absurd (omega arith)
strcmp_lem (suc fuel) zero s1 s2 b h l y =
    rw (strcmp_stop fuel s1 s2 b (inl l))
      ((λ q. (char_diff_zero _ _ (y s1) (y s2) q, tt)), λ a. char_diff_self _ _ (y s1) a.0)
strcmp_lem (suc fuel) (suc k) s1 s2 b h l y = elim (ℕ_discrete (b s1) (b s2)) [
  | yes e ↦
      rw (strcmp_go fuel s1 s2 b l.0 e)
        (longer k s1 s2 b _ e (strcmp_lem fuel k (s1 + 1) (s2 + 1) b (omega arith) l.1 y))
  | no ne ↦
      rw (strcmp_stop fuel s1 s2 b (inr ne))
        ((λ q. absurd (ne (char_diff_zero _ _ (y s1) (y s2) q))), λ a. absurd (ne a.0))
]
