-- ===== src/Base/Bits.antt =====
-- `|` of disjoint fields and `^` with a mask of ones, as arithmetic, at every width.
use Prim.Native.Nat.{
  ℕ, zero, suc, ◌+◌, ◌-◌, ◌*◌, ◌/◌, ◌%◌, ◌^◌, ◌≤◌, ◌<◌, max, bit_or, bit_xor, digits, bitwise,
  differ, bit_or-bitwise, bit_xor-bitwise,
}
use mathlib.Core.Path.{◌≡◌, refl, sym, ap, ◌∙◌}
use native.Mathlib.Omega.{arith}
use native.Mathlib.Nat.{pow-suc}

module _ (z : ℕ → ℕ) (f : ℕ → ℕ → ℕ) where
  -- A count of digits past the number's own changes nothing.
  same_digits :
      (count more x y : ℕ) → x ≤ count → count ≤ more → digits z f more x y ≡ digits z f count x y
  same_digits count more zero y p q = none_left count more
    where
      none_left : (c m : ℕ) → digits z f m zero y ≡ digits z f c zero y
      none_left zero zero = refl
      none_left (suc c) zero = refl
      none_left zero (suc m) = refl
      none_left (suc c) (suc m) = refl
  same_digits (suc count) (suc more) (suc x) y p q =
      ap (λ t. t * 2 + f (suc x % 2) (y % 2))
        (same_digits count more (suc x / 2) (y / 2) (omega arith) (omega arith))
  same_digits zero more (suc x) y p q = absurd (omega arith)
  same_digits (suc count) zero (suc x) y p q = absurd (omega arith)

  -- The lowest digit apart from the others.
  lowest :
      (x y : ℕ)
      → bitwise z f (suc x) y ≡ bitwise z f (suc x / 2) (y / 2) * 2 + f (suc x % 2) (y % 2)
  lowest x y =
      ap (λ t. t * 2 + f (suc x % 2) (y % 2))
        (same_digits (suc x / 2) x (suc x / 2) (y / 2) (omega arith) (omega arith))

or_nothing : (y : ℕ) → bit_or 0 y ≡ y
or_nothing y = bit_or-bitwise 0 y

xor_nothing : (y : ℕ) → bit_xor 0 y ≡ y
xor_nothing y = bit_xor-bitwise 0 y

halve_or : (x y : ℕ) → bit_or x y ≡ bit_or (x / 2) (y / 2) * 2 + max (x % 2) (y % 2)
halve_or (suc x) y =
    bit_or-bitwise (suc x) y
    ∙ lowest (λ t. t) max x y
    ∙ ap (λ t. t * 2 + max (suc x % 2) (y % 2)) (sym (bit_or-bitwise (suc x / 2) (y / 2)))
halve_or zero y = omega (arith, or_nothing y, or_nothing (y / 2))

-- The exclusive or of two digits is their sum without the carry.
differ-sum : (p q : ℕ) → p < 2 → q < 2 → differ p q ≡ (p + q) % 2
differ-sum zero q hp hq = omega arith
differ-sum (suc zero) zero hp hq = refl
differ-sum (suc zero) (suc zero) hp hq = refl
differ-sum (suc zero) (suc (suc q)) hp hq = absurd (omega arith)
differ-sum (suc (suc p)) q hp hq = absurd (omega arith)

halve_xor : (x y : ℕ) → bit_xor x y ≡ bit_xor (x / 2) (y / 2) * 2 + (x + y) % 2
halve_xor (suc x) y =
    bit_xor-bitwise (suc x) y
    ∙ lowest (λ t. t) differ x y
    ∙ ap (λ t. t * 2 + differ (suc x % 2) (y % 2)) (sym (bit_xor-bitwise (suc x / 2) (y / 2)))
    ∙ omega (arith, differ-sum (suc x % 2) (y % 2) (omega arith) (omega arith))
halve_xor zero y = omega (arith, xor_nothing y, xor_nothing (y / 2))

-- A field of `k` bits below a field that starts at bit `k`.
pub bit_or_fields : (k lo hi : ℕ) → lo < 2 ^ k → bit_or lo (hi * 2 ^ k) ≡ lo + hi * 2 ^ k
bit_or_fields zero zero hi h = omega (arith, or_nothing (hi * 2 ^ 0))
bit_or_fields zero (suc lo) hi h = absurd (omega arith)
bit_or_fields (suc k) lo hi h =
    let e : hi * 2 ^ suc k ≡ 2 * (hi * 2 ^ k) =
      omega (arith, ap (λ (t : ℕ). hi * t) (pow-suc 2 k)) in
    let d : hi * 2 ^ suc k / 2 ≡ hi * 2 ^ k = omega arith in
    omega (
      arith,
      halve_or lo (hi * 2 ^ suc k),
      ap (λ (t : ℕ). bit_or (lo / 2) t) d,
      bit_or_fields k (lo / 2) hi (omega (arith, pow-suc 2 k)),
    )

-- A mask of `k` ones turns every bit over.
pub bit_xor_ones : (k a m : ℕ) → a < 2 ^ k → m + 1 ≡ 2 ^ k → bit_xor a m ≡ m - a
bit_xor_ones zero zero m h e = omega (arith, xor_nothing m)
bit_xor_ones zero (suc a) m h e = absurd (omega arith)
bit_xor_ones (suc k) a m h e = omega (
  arith,
  halve_xor a m,
  pow-suc 2 k,
  bit_xor_ones k (a / 2) (m / 2) (omega (arith, pow-suc 2 k)) (omega (arith, pow-suc 2 k)),
)
