-- ===== src/Protocol/ByteOrder.antt =====
-- src/protocol/byte_order.hpp: 32-bit little-endian words.
use adbcpp.Base.{
  ℕ, ◌+◌, ◌*◌, ◌/◌, ◌%◌, ◌^◌, ◌≡◌, refl, ◌∙◌, List, [], ◌∷◌, ◌++◌, bit_or, arith, length, IsByte,
  AllBytes, IsU32,
}
use adbcpp.Base.Bits.{bit_or_fields}

-- `x << k` of a `std::uint32_t`
abbrev pub shl32 : ℕ → ℕ → ℕ
shl32 x k = x * 2 ^ k % 4294967296

-- The four bytes that are written. A write of several words into one buffer is the concatenation.
unfoldable pub write_u32_le : ℕ → List ℕ
write_u32_le value =
    value % 256 ∷ value / 2 ^ 8 % 256 ∷ value / 2 ^ 16 % 256 ∷ value / 2 ^ 24 % 256 ∷ []

-- The pointer is the list of bytes from there on. A read past the end, which the source never makes,
-- is 0 here.
unfoldable pub read_u32_le : List ℕ → ℕ
read_u32_le (a ∷ b ∷ c ∷ d ∷ rest) =
    bit_or (bit_or (bit_or a (shl32 b 8)) (shl32 c 16)) (shl32 d 24)
read_u32_le _ = 0

pub length-write_u32_le : (v : ℕ) → length (write_u32_le v) ≡ 4
unfolding write_u32_le
length-write_u32_le v = refl

pub write_u32_le-AllBytes : (v : ℕ) → AllBytes (write_u32_le v)
unfolding write_u32_le
write_u32_le-AllBytes v = omega arith

-- The word as a sum.
pub read_u32_le-sum :
    (a b c d : ℕ) (rest : List ℕ)
    → IsByte a
    → IsByte b
    → IsByte c
    → IsByte d
    → read_u32_le (a ∷ b ∷ c ∷ d ∷ rest) ≡ a + b * 256 + c * 65536 + d * 16777216
unfolding read_u32_le
read_u32_le-sum a b c d rest ha hb hc hd =
    let sb : shl32 b 8 ≡ b * 2 ^ 8 = omega arith in
    let sc : shl32 c 16 ≡ c * 2 ^ 16 = omega arith in
    let sd : shl32 d 24 ≡ d * 2 ^ 24 = omega arith in
    rw (sb, sc, sd, bit_or_fields 8 a b (omega arith))
      (rw (bit_or_fields 16 (a + b * 2 ^ 8) c (omega arith))
        (rw (bit_or_fields 24 (a + b * 2 ^ 8 + c * 2 ^ 16) d (omega arith)) (omega arith)))

-- A word that was written is read back, whatever follows it.
pub read_u32_le-write_u32_le :
    (v : ℕ) (rest : List ℕ) → IsU32 v → read_u32_le (write_u32_le v ++ rest) ≡ v
unfolding write_u32_le
read_u32_le-write_u32_le v rest h =
    read_u32_le-sum (v % 256) (v / 2 ^ 8 % 256) (v / 2 ^ 16 % 256) (v / 2 ^ 24 % 256) rest
      (omega arith) (omega arith) (omega arith) (omega arith)
    ∙ omega arith

pub read_u32_le-IsU32 : (bs : List ℕ) → AllBytes bs → IsU32 (read_u32_le bs)
read_u32_le-IsU32 (a ∷ b ∷ c ∷ d ∷ rest) (ha, (hb, (hc, (hd, _)))) =
    omega (arith, read_u32_le-sum a b c d rest ha hb hc hd)
read_u32_le-IsU32 [] h = unfold read_u32_le in omega arith
read_u32_le-IsU32 (a ∷ []) h = unfold read_u32_le in omega arith
read_u32_le-IsU32 (a ∷ b ∷ []) h = unfold read_u32_le in omega arith
read_u32_le-IsU32 (a ∷ b ∷ c ∷ []) h = unfold read_u32_le in omega arith

-- Writing the word that was read gives its four bytes again.
pub write_u32_le-read_u32_le :
    (a b c d : ℕ) (rest : List ℕ)
    → IsByte a
    → IsByte b
    → IsByte c
    → IsByte d
    → write_u32_le (read_u32_le (a ∷ b ∷ c ∷ d ∷ rest)) ≡ a ∷ b ∷ c ∷ d ∷ []
unfolding write_u32_le
write_u32_le-read_u32_le a b c d rest ha hb hc hd =
    rw (read_u32_le-sum a b c d rest ha hb hc hd) (ground arith)
