-- ===== src/Sync/Words.antt =====
-- The 64-bit words of the sync protocol, as the device writes them.
use adbcpp.Base.{
  ℕ, ◌+◌, ◌*◌, ◌^◌, ◌%◌, ◌≡◌, refl, ap, ◌∙◌, List, ◌++◌, arith, IsU32, bit_or, length, drop-append,
}
use adbcpp.Base.Bits.{bit_or_fields}
use adbcpp.Protocol.ByteOrder.{write_u32_le, read_u32_le-write_u32_le}
use adbcpp.Sync.Wire.{read_u64_le}

four : (n : ℕ) → length (write_u32_le n) ≡ 4
unfolding write_u32_le
four n = refl

-- The eight bytes of a 64-bit number, its lower half first, are read as that number, whatever comes
-- behind them.
pub read_u64_le-halves :
    (low high : ℕ) (rest : List ℕ)
    → IsU32 low
    → IsU32 high
    → read_u64_le (write_u32_le low ++ (write_u32_le high ++ rest)) ≡ low + high * 4294967296
unfolding read_u64_le
read_u64_le-halves low high rest l h =
    let e : high * 2 ^ 32 % 18446744073709551616 ≡ high * 2 ^ 32 = omega arith in
    rw
      (
        read_u32_le-write_u32_le low (write_u32_le high ++ rest) l,
        drop-append 4 (write_u32_le low) (write_u32_le high ++ rest) (four low),
        read_u32_le-write_u32_le high rest h,
      )
      (ap (bit_or low) e ∙ bit_or_fields 32 low high l)
