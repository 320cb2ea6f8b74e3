-- ===== src/Disk/Words.antt =====
-- Blocks as bytes, and the 32-bit words in them, the low byte first.
use operating_system_osv.Base.{
  ℕ, zero, suc, ◌+◌, ◌*◌, ◌/◌, ◌%◌, ◌^◌, ◌<◌, ◌≡◌, ◌≢◌, refl, ap, ◌∙◌, List, [], ◌∷◌, ◌==◌,
  if◌then◌else◌, arith, length, get_or,
}

-- The byte `i` of a word.
abbrev pub byte_of : ℕ → ℕ → ℕ
byte_of w zero = w % 256
byte_of w (suc zero) = w / 256 % 256
byte_of w (suc (suc zero)) = w / 65536 % 256
byte_of w (suc (suc (suc _))) = w / 16777216 % 256

unfoldable pub get_word : (ℕ → ℕ) → ℕ → ℕ
get_word d k = d (4 * k) + 256 * d (4 * k + 1) + 65536 * d (4 * k + 2) + 16777216 * d (4 * k + 3)

unfoldable pub put_word : (ℕ → ℕ) → ℕ → ℕ → ℕ → ℕ
put_word d k w o = if o / 4 == k then byte_of w (o % 4) else d o

byte_there : (d : ℕ → ℕ) (k w o i : ℕ) → o / 4 ≡ k → o % 4 ≡ i → put_word d k w o ≡ byte_of w i
unfolding put_word
byte_there d k w o i e f = ground (arith, e, ap (byte_of w) f)

byte_elsewhere : (d : ℕ → ℕ) (k w o : ℕ) → o / 4 ≢ k → put_word d k w o ≡ d o
unfolding put_word
byte_elsewhere d k w o ne = ground (arith, ne)

pub get_word-put_word_self : (d : ℕ → ℕ) (k w : ℕ) → w < 2 ^ 32 → get_word (put_word d k w) k ≡ w
unfolding get_word
get_word-put_word_self d k w h =
    rw
      (
        byte_there d k w (4 * k) 0 (omega arith) (omega arith),
        byte_there d k w (4 * k + 1) 1 (omega arith) (omega arith),
        byte_there d k w (4 * k + 2) 2 (omega arith) (omega arith),
        byte_there d k w (4 * k + 3) 3 (omega arith) (omega arith),
      )
      (omega arith)

pub get_word-put_word_ne :
    (d : ℕ → ℕ) (k j w : ℕ) → k ≢ j → get_word (put_word d k w) j ≡ get_word d j
unfolding get_word
get_word-put_word_ne d k j w ne =
    rw
      (
        byte_elsewhere d k w (4 * j) (λ e. ne (omega arith)),
        byte_elsewhere d k w (4 * j + 1) (λ e. ne (omega arith)),
        byte_elsewhere d k w (4 * j + 2) (λ e. ne (omega arith)),
        byte_elsewhere d k w (4 * j + 3) (λ e. ne (omega arith)),
      )
      refl

-- memmove of whole words from the word `k` on.
unfoldable pub put_words : (ℕ → ℕ) → ℕ → List ℕ → ℕ → ℕ
put_words d k [] = d
put_words d k (w ∷ ws) = put_words (put_word d k w) (suc k) ws

abbrev pub AreWords : List ℕ → Type 0
AreWords [] = Unit
AreWords (w ∷ ws) = (w < 2 ^ 32) × AreWords ws

before_words :
    (ws : List ℕ) (d : ℕ → ℕ) (k j : ℕ) → j < k → get_word (put_words d k ws) j ≡ get_word d j
unfolding put_words
before_words [] d k j h = refl
before_words (w ∷ ws) d k j h =
    before_words ws (put_word d k w) (suc k) j (omega arith)
    ∙ get_word-put_word_ne d k j w (omega arith)

-- The word at each place of the list is its entry.
pub get_word-put_words :
    (ws : List ℕ) (d : ℕ → ℕ) (k i : ℕ)
    → AreWords ws
    → i < length ws
    → get_word (put_words d k ws) (k + i) ≡ get_or ws i 0
unfolding put_words
get_word-put_words [] d k i h l = absurd (omega arith)
get_word-put_words (w ∷ ws) d k zero h l =
    let e : k + 0 ≡ k = omega arith in
    ap (get_word (put_words d k (w ∷ ws))) e
    ∙ before_words ws (put_word d k w) (suc k) k (omega arith)
    ∙ get_word-put_word_self d k w h.0
get_word-put_words (w ∷ ws) d k (suc i) h l =
    let e : k + suc i ≡ suc k + i = omega arith in
    ap (get_word (put_words d k (w ∷ ws))) e
    ∙ get_word-put_words ws (put_word d k w) (suc k) i h.1 (omega arith)
