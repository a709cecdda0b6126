-- ===== src/Protocol/Message/Checks.antt =====
-- `compute_magic`, `compute_checksum` and `data_length_of`: what the fields that guard a frame say.
use adbcpp.Base.{
  ℕ, ◌+◌, ◌-◌, ◌%◌, ◌≤◌, ◌≡◌, ◌≢◌, refl, List, [], ◌∷◌, ◌++◌, arith, length, IsByte, IsU32,
}
use adbcpp.Base.Bits.{bit_xor_ones}
use adbcpp.Outcome.{ok, err, error, invalid_argument}
use adbcpp.Protocol.Message.{compute_magic, compute_checksum, add_bytes, data_length_of}

-- The magic of a command is its distance from the largest word.
pub compute_magic-sub : (c : ℕ) → IsU32 c → compute_magic c ≡ 0xffff_ffff - c
unfolding compute_magic
compute_magic-sub c h = bit_xor_ones 32 c 0xffff_ffff h refl

pub compute_magic-IsU32 : (c : ℕ) → IsU32 c → IsU32 (compute_magic c)
compute_magic-IsU32 c h = omega (arith, compute_magic-sub c h)

-- The magic of a word is never the word, and it names the word.
pub compute_magic_lem :
    (c : ℕ)
    → IsU32 c
    → (compute_magic c ≢ c)
      × (compute_magic (compute_magic c) ≡ c)
      × (compute_magic c + c ≡ 0xffff_ffff)
compute_magic_lem c h =
    let m = compute_magic-sub c h in
    let mm = compute_magic-sub (compute_magic c) (compute_magic-IsU32 c h) in
    (omega (arith, m), omega (arith, m, mm), omega (arith, m))

abbrev pub sum : List ℕ → ℕ
sum [] = 0
sum (b ∷ bs) = b + sum bs

add_bytes-sum : (acc : ℕ) (bs : List ℕ) → IsU32 acc → add_bytes acc bs ≡ (acc + sum bs) % 4294967296
unfolding add_bytes
add_bytes-sum acc [] h = omega arith
add_bytes-sum acc (b ∷ bs) h =
    omega (arith, add_bytes-sum ((acc + b) % 4294967296) bs (omega arith))

-- The checksum is the sum of the payload, as a 32-bit word.
pub compute_checksum-sum : (bs : List ℕ) → compute_checksum bs ≡ sum bs % 4294967296
unfolding compute_checksum
compute_checksum-sum bs = omega (arith, add_bytes-sum 0 bs (omega arith))

pub compute_checksum-IsU32 : (bs : List ℕ) → IsU32 (compute_checksum bs)
compute_checksum-IsU32 bs = omega (arith, compute_checksum-sum bs)

sum-append : (xs ys : List ℕ) → sum (xs ++ ys) ≡ sum xs + sum ys
sum-append [] ys = omega arith
sum-append (x ∷ xs) ys = omega (arith, sum-append xs ys)

-- A payload in which one byte is another byte has another checksum.
pub checksum_detects_byte :
    (xs ys : List ℕ) (a b : ℕ)
    → IsByte a
    → IsByte b
    → a ≢ b
    → compute_checksum (xs ++ a ∷ ys) ≢ compute_checksum (xs ++ b ∷ ys)
checksum_detects_byte xs ys a b ha hb h e = h (
    omega (
      arith,
      e,
      compute_checksum-sum (xs ++ a ∷ ys),
      compute_checksum-sum (xs ++ b ∷ ys),
      sum-append xs (a ∷ ys),
      sum-append xs (b ∷ ys),
    ))

-- The sum does not see the order: exchanging two neighbouring bytes leaves the checksum.
pub checksum_misses_swap :
    (xs ys : List ℕ) (a b : ℕ)
    → compute_checksum (xs ++ a ∷ b ∷ ys) ≡ compute_checksum (xs ++ b ∷ a ∷ ys)
checksum_misses_swap xs ys a b = omega (
  arith,
  compute_checksum-sum (xs ++ a ∷ b ∷ ys),
  compute_checksum-sum (xs ++ b ∷ a ∷ ys),
  sum-append xs (a ∷ b ∷ ys),
  sum-append xs (b ∷ a ∷ ys),
)

-- A payload that a 32-bit length can count has its own length in the header.
pub data_length_of-ok : (bs : List ℕ) → IsU32 (length bs) → data_length_of bs ≡ ok (length bs)
unfolding data_length_of
data_length_of-ok bs h = ground arith

pub data_length_of-err :
    (bs : List ℕ)
    → 4294967296 ≤ length bs
    → data_length_of bs ≡ err (error invalid_argument "the payload is too large for the ADB header")
unfolding data_length_of
data_length_of-err bs h = ground arith
