-- ===== src/Sync/Decimal.antt =====
-- The mode of a file in the path of SEND, as the device reads it.
use native.Mathlib.Nat.{pow-suc}
use adbcpp.Base.{
  ℕ, zero, suc, ◌+◌, ◌-◌, ◌*◌, ◌/◌, ◌%◌, ◌^◌, ◌<◌, ◌≡◌, ◌≢◌, ap, ◌∙◌, List, [], ◌∷◌, arith, IsU32,
  get_or, ◌==◌, false, Bool-cases, inl, inr, ==_iff,
}
use adbcpp.Sync.Push.{prepend_digits, to_string}

-- The number that decimal digits spell behind the number `n`.
unfoldable pub decimal : ℕ → List ℕ → ℕ
decimal n [] = n
decimal n (digit ∷ rest) = decimal (n * 10 + (digit - b'0')) rest

prepend_last :
    (fuel n : ℕ) (text : List ℕ)
    → n / 10 ≡ 0
    → prepend_digits (suc fuel) n text ≡ (b'0' + n % 10) ∷ text
prepend_last fuel n text h = rw ((==_iff (n / 10) 0).1 h)

prepend_more :
    (fuel n : ℕ) (text : List ℕ)
    → (n / 10 == 0) ≡ false
    → prepend_digits (suc fuel) n text ≡ prepend_digits fuel (n / 10) ((b'0' + n % 10) ∷ text)
prepend_more fuel n text h = rw h

decimal-prepend :
    (fuel n : ℕ) (text : List ℕ)
    → n < 10 ^ fuel
    → decimal 0 (prepend_digits fuel n text) ≡ decimal n text
unfolding decimal
decimal-prepend zero n text h = let e : 0 ≡ n = omega arith in ap (λ m. decimal m text) e
decimal-prepend (suc fuel) n text h = elim (Bool-cases (n / 10 == 0)) [
  | inl t ↦
      let q = (==_iff (n / 10) 0).0 t in
      let e : 0 * 10 + (b'0' + n % 10 - b'0') ≡ n = omega arith in
      ap (decimal 0) (prepend_last fuel n text q) ∙ ap (λ m. decimal m text) e
  | inr t ↦
      let e : n / 10 * 10 + (b'0' + n % 10 - b'0') ≡ n = omega arith in
      ap (decimal 0) (prepend_more fuel n text t)
      ∙ decimal-prepend fuel (n / 10) ((b'0' + n % 10) ∷ text) (omega (arith, pow-suc 10 fuel))
      ∙ ap (λ m. decimal m text) e
]

first_digit :
    (fuel n : ℕ) (text : List ℕ)
    → 0 < n
    → n < 10 ^ fuel
    → get_or (prepend_digits fuel n text) 0 0 ≢ b'0'
first_digit zero n text p h e = absurd (omega arith)
first_digit (suc fuel) n text p h e = elim (Bool-cases (n / 10 == 0)) [
  | inl t ↦
      let q = (==_iff (n / 10) 0).0 t in
      let g = ap (λ (d : List ℕ). get_or d 0 0) (prepend_last fuel n text q) in absurd (omega arith)
  | inr t ↦
      let more = (b'0' + n % 10) ∷ text in
      let z : n / 10 ≢ 0 = λ z. ground arith in
      first_digit fuel (n / 10) more (omega arith) (omega (arith, pow-suc 10 fuel))
        (rw (prepend_more fuel n text t) at e)
]

-- The decimal text of a 32-bit number spells that number, and does not begin with a zero unless the
-- number is zero, so that a reader that takes a leading zero for octal reads the same number.
pub to_string-decimal :
    (n : ℕ) → IsU32 n → (decimal 0 (to_string n) ≡ n) × (0 < n → get_or (to_string n) 0 0 ≢ b'0')
unfolding to_string decimal
to_string-decimal n u =
    (decimal-prepend 10 n [] (omega arith), λ p. first_digit 10 n [] p (omega arith))
