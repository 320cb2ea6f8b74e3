-- ===== src/Pmem/Bitmap/Bits.antt =====
-- The bitmap's bytes as bits: setting or clearing one bit changes that bit and no other. Each law
-- of a byte is checked for all 256 values and all 8 bits.
use operating_system_osv.Base.{
  ℕ, zero, suc, ◌/◌, ◌%◌, ◌<◌, ◌≡◌, refl, Bool, true, false, ◌&&◌, arith, ltb, ◌==◌, if◌then◌else◌,
  ltb→lt,
}
use operating_system_osv.Pmem.Bitmap.{
  byte_set, byte_unset, byte_isset, bitmap_set, bitmap_unset, bitmap_isset,
}

-- The test passes for each of the numbers 0, 1, … below the bound.
passes : (ℕ → Bool) → ℕ → Bool
passes test zero = true
passes test (suc bound) = let rest = passes test bound in if test bound then rest else false

passes_at :
    (test : ℕ → Bool) (bound value : ℕ)
    → passes test bound ≡ true
    → value < bound
    → test value ≡ true
unfolding passes
passes_at test zero value ok lt = absurd (omega arith)
passes_at test (suc b) value ok lt = ground (arith, passes_at test b value)

same : Bool → Bool → Bool
same true b = b
same false true = false
same false false = true

same_sound : (a b : Bool) → same a b ≡ true → a ≡ b
unfolding same
same_sound a b h = ground arith

set_law : ℕ → ℕ → ℕ → Bool
unfolding same byte_set byte_isset
set_law v k j =
    same (byte_isset (byte_set v k) j) (if k == j then true else byte_isset v j)
    && ltb (byte_set v k) 256

unset_law : ℕ → ℕ → ℕ → Bool
unfolding same byte_unset byte_isset
unset_law v k j =
    same (byte_isset (byte_unset v k) j) (if k == j then false else byte_isset v j)
    && ltb (byte_unset v k) 256

table : (ℕ → ℕ → ℕ → Bool) → Bool
table law = passes (λ v. passes (λ k. passes (law v k) 8) 8) 256

set_table : table set_law ≡ true
unfolding table set_law passes
set_table = refl

unset_table : table unset_law ≡ true
unfolding table unset_law passes
unset_table = refl

table_sound :
    (law : ℕ → ℕ → ℕ → Bool) (v k j : ℕ)
    → table law ≡ true
    → v < 256
    → k < 8
    → j < 8
    → law v k j ≡ true
unfolding table
table_sound law v k j t hv hk hj =
    let at_v = passes_at (λ v. passes (λ k. passes (law v k) 8) 8) 256 v t hv in
    let at_k = passes_at (λ k. passes (law v k) 8) 8 k at_v hk in passes_at (law v k) 8 j at_k hj

and_true : (a b : Bool) → (a && b) ≡ true → (a ≡ true) × (b ≡ true)
and_true a b h = ground arith

byte_isset-set :
    (v k j : ℕ)
    → v < 256
    → k < 8
    → j < 8
    → (byte_isset (byte_set v k) j ≡ (if k == j then true else byte_isset v j))
      × (byte_set v k < 256)
byte_isset-set v k j hv hk hj =
    let h = table_sound set_law v k j set_table hv hk hj in
    unfold set_law in let (e, l) = and_true _ _ h in (same_sound _ _ e, ltb→lt _ _ l)

byte_isset-unset :
    (v k j : ℕ)
    → v < 256
    → k < 8
    → j < 8
    → (byte_isset (byte_unset v k) j ≡ (if k == j then false else byte_isset v j))
      × (byte_unset v k < 256)
byte_isset-unset v k j hv hk hj =
    let h = table_sound unset_law v k j unset_table hv hk hj in
    unfold unset_law in let (e, l) = and_true _ _ h in (same_sound _ _ e, ltb→lt _ _ l)

-- Every entry is a byte.
abbrev pub IsBytes : (ℕ → ℕ) → Type 0
IsBytes b = (k : ℕ) → b k < 256

-- Setting a page's bit sets that bit, keeps all others, and leaves bytes.
pub isset-set :
    (b : ℕ → ℕ) (i j : ℕ)
    → IsBytes b
    → bitmap_isset (bitmap_set b i) j ≡ (if i == j then true else bitmap_isset b j)
isset-set b i j h = ground (arith, byte_isset-set (b (i / 8)) (i % 8) (j % 8), h (i / 8))

pub isset-unset :
    (b : ℕ → ℕ) (i j : ℕ)
    → IsBytes b
    → bitmap_isset (bitmap_unset b i) j ≡ (if i == j then false else bitmap_isset b j)
isset-unset b i j h = ground (arith, byte_isset-unset (b (i / 8)) (i % 8) (j % 8), h (i / 8))

pub set-IsBytes : (b : ℕ → ℕ) (i : ℕ) → IsBytes b → IsBytes (bitmap_set b i)
set-IsBytes b i h k = ground (arith, byte_isset-set (b (i / 8)) (i % 8) 0, h (i / 8), h k)

pub unset-IsBytes : (b : ℕ → ℕ) (i : ℕ) → IsBytes b → IsBytes (bitmap_unset b i)
unset-IsBytes b i h k = ground (arith, byte_isset-unset (b (i / 8)) (i % 8) 0, h (i / 8), h k)
