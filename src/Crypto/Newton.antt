-- ===== src/Crypto/Newton.antt =====
-- `inverse_mod_2_32` of src/crypto/adb_key.cpp: the inverse modulo 2^32 by five Newton steps.
use native.Mathlib.Nat.{
  add-sub_of_le, mul-le-mul_left, mod-lt, mul_comm, mul-add, add-mul, mul_assoc, mod-add-div,
  add-mul-mod_self_left, mul-mul-mul_comm,
}
use adbcpp.Base.{
  ℕ, zero, suc, ◌+◌, ◌-◌, ◌*◌, ◌/◌, ◌%◌, ◌≤◌, ◌<◌, ◌≡◌, refl, sym, ap, ◌∙◌, arith, IsU32, leb,
  Bool-cases, leb→le, leb→not_le, inl, inr,
}

-- One round: `inverse *= 2u - value * inverse`, where both the product and the difference wrap.
unfoldable pub newton : ℕ → ℕ → ℕ
newton value inverse =
    inverse * ((2 + 4294967296 - value * inverse % 4294967296) % 4294967296) % 4294967296

abbrev pub newton_rounds : ℕ → ℕ → ℕ → ℕ
newton_rounds zero value inverse = inverse
newton_rounds (suc rounds) value inverse = newton_rounds rounds value (newton value inverse)

unfoldable pub inverse_mod_2_32 : ℕ → ℕ
inverse_mod_2_32 value = newton_rounds 5 value 1

mul-mod : (a b m : ℕ) → a * b % m ≡ a % m * b % m
mul-mod a b m =
    ap (λ (t : ℕ). t * b % m) (sym (mod-add-div a m))
    ∙ ap (λ (t : ℕ). t % m)
        (add-mul (a % m) (m * (a / m)) b ∙ ap (λ (t : ℕ). a % m * b + t) (mul_assoc m (a / m) b))
    ∙ add-mul-mod_self_left (a % m * b) m (a / m * b)

mul-mod_right : (a b m : ℕ) → a * (b % m) % m ≡ a * b % m
mul-mod_right a b m =
    ap (λ (t : ℕ). t % m) (mul_comm a (b % m))
    ∙ sym (mul-mod b a m)
    ∙ ap (λ (t : ℕ). t % m) (mul_comm b a)

-- The product of the value with the inverse so far, modulo 2^32.
abbrev residue : ℕ → ℕ → ℕ
residue value inverse = value * inverse % 4294967296

-- A round takes a residue `a` to `a (2 - a)`.
residue-newton :
    (value inverse : ℕ)
    → residue value (newton value inverse)
      ≡ residue value inverse * (2 + 4294967296 - residue value inverse) % 4294967296
unfolding newton
residue-newton value inverse =
    let factor = 2 + 4294967296 - value * inverse % 4294967296 in
    mul-mod_right value (inverse * (factor % 4294967296)) 4294967296
    ∙ ap (λ (t : ℕ). t % 4294967296) (sym (mul_assoc value inverse (factor % 4294967296)))
    ∙ mul-mod_right (value * inverse) factor 4294967296
    ∙ mul-mod (value * inverse) factor 4294967296

-- The residue is 1 in the digits below `d`.
abbrev Near : ℕ → ℕ → Type 0
Near d a = (q : ℕ) × (a ≡ 1 + q * d)

-- The product of two numbers whose digits below `d` are 1.
product : (q p d : ℕ) → (1 + q * d) * (1 + p * d) ≡ 1 + (q * d + p * d) + q * p * (d * d)
product q p d =
    let split = add-mul 1 (q * d) (1 + p * d) in
    let right = mul-add (q * d) 1 (p * d) in let swap = mul-mul-mul_comm q d p d in omega arith

-- The part of the modulus above the residue.
complement : (d r q : ℕ) → q * d < d * r + d → (p : ℕ) × (d * r ≡ q * d + p * d)
complement d r q h = elim (Bool-cases (leb q r)) [
  | inl e ↦ (
    r - q,
    mul_comm d r ∙ ap (λ (t : ℕ). t * d) (sym (add-sub_of_le (leb→le q r e))) ∙ add-mul q (r - q) d,
  )
  | inr e ↦ absurd (
      let more : d * suc r ≤ d * q = mul-le-mul_left d (leb→not_le q r e) in
      let step = mul-add d 1 r in let swap = mul_comm d q in omega arith)
]

-- A round doubles the number of right digits.
closer :
    (d r a : ℕ)
    → a < 4294967296
    → d * r ≡ 4294967296
    → Near d a
    → (s : ℕ) × (a * (2 + 4294967296 - a) ≡ 1 + 4294967296 + s * (d * d))
closer d r a h e (q, n) =
    let (p, whole) = complement d r q (omega arith) in
    let factor : 2 + 4294967296 - a ≡ 1 + p * d = omega arith in
    (
      q * p,
      ap (λ (t : ℕ). a * t) factor
          ∙ ap (λ (t : ℕ). t * (1 + p * d)) n
          ∙ product q p d
          ∙ omega arith,
    )

-- Reducing by a modulus that `c` divides keeps the digits below `c`.
keep_digits :
    (c size s total : ℕ)
    → c * size ≡ 4294967296
    → 2 ≤ c
    → total ≡ 1 + 4294967296 + s * c
    → Near c (total % 4294967296)
keep_digits c size s total w two e =
    let times = total / 4294967296 in
    let parts = mod-add-div total 4294967296 in
    let size_times : c * (size * times) ≡ 4294967296 * times =
      sym (mul_assoc c size times) ∙ ap (λ (t : ℕ). t * times) w in
    let order = mul_comm c (size * times) in
    let sum = mul-add c size s in
    let swap = mul_comm c s in
    let (p, rest) = complement c (size + s) (size * times) (omega arith) in (p, omega arith)

-- A round from the digits below `d` has those below `d * d`, which `size` counts in the modulus.
closer-round :
    (d r size value inverse : ℕ)
    → d * r ≡ 4294967296
    → d * d * size ≡ 4294967296
    → 2 ≤ d * d
    → Near d (residue value inverse)
    → Near (d * d) (residue value (newton value inverse))
closer-round d r size value inverse e w two near =
    let (s, n) =
      closer d r (residue value inverse) (mod-lt (value * inverse) (omega arith)) e near in
    let (p, m) = keep_digits (d * d) size s _ w two n in (p, residue-newton value inverse ∙ m)

Near-whole : (a : ℕ) → a < 4294967296 → Near 4294967296 a → a ≡ 1
Near-whole a h (q, e) = omega arith

-- The inverse multiplied by its value is 1 modulo 2^32, for every odd value.
pub inverse_mod_2_32-IsInverse :
    (value : ℕ) → IsU32 value → value % 2 ≡ 1 → value * inverse_mod_2_32 value % 4294967296 ≡ 1
unfolding inverse_mod_2_32
inverse_mod_2_32-IsInverse value h odd =
    let digit : Near 2 (residue value 1) = (value / 2, omega arith) in
    let i1 = newton value 1 in
    let i2 = newton value i1 in
    let i3 = newton value i2 in
    let i4 = newton value i3 in
    let n1 = closer-round 2 2147483648 1073741824 value 1 refl refl (omega arith) digit in
    let n2 = closer-round 4 1073741824 268435456 value i1 refl refl (omega arith) n1 in
    let n3 = closer-round 16 268435456 16777216 value i2 refl refl (omega arith) n2 in
    let n4 = closer-round 256 16777216 65536 value i3 refl refl (omega arith) n3 in
    let n5 = closer-round 65536 65536 1 value i4 refl refl (omega arith) n4 in
    Near-whole _ (mod-lt (value * newton value i4) (omega arith)) n5
