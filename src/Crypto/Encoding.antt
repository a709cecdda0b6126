-- ===== src/Crypto/Encoding.antt =====
-- `to_little_endian`, `compute_rr`, `encode_public_key` and `Key::fingerprint` of
-- src/crypto/adb_key.cpp: the public key in ADB's format.
use adbcpp.Base.{
  ℕ, ◌+◌, ◌-◌, ◌*◌, ◌/◌, ◌%◌, List, [], ◌∷◌, ◌++◌, Option, none, some, String, length, take, drop,
  replicate, codes, find, get_or,
}
use adbcpp.Outcome.{Result, ok, err, stuck, error, crypto}
use adbcpp.Protocol.ByteOrder.{write_u32_le, read_u32_le}
use adbcpp.Crypto.Newton.{inverse_mod_2_32}

abbrev pub modulus_bytes : ℕ
modulus_bytes = 256

abbrev pub blob_size : ℕ
blob_size = 4 + 4 + modulus_bytes + modulus_bytes + 4

-- What the program calls of mbedTLS: `K` is a `mbedtls_pk_context`, a bignum is a number, and `none`
-- is a result that is not zero. The bytes of `write_binary` are in big-endian order, and the first
-- argument of the two base64 functions is the size of the output buffer.
pub record Mbed (K : Type 0) : Type 0 where
  pub rsa_export : K → Option (ℕ × ℕ)
  pub mpi_lset : ℕ → Option ℕ
  pub mpi_shift_l : ℕ → ℕ → Option ℕ
  pub mpi_mod_mpi : ℕ → ℕ → Option ℕ
  pub mpi_write_binary : ℕ → ℕ → Option (List ℕ)
  pub base64_encode : ℕ → List ℕ → Option (List ℕ)
  pub base64_decode : ℕ → List ℕ → Option (List ℕ)
  pub md5 : List ℕ → List ℕ

unfoldable pub reverse : List ℕ → List ℕ
reverse [] = []
reverse (b ∷ bytes) = reverse bytes ++ b ∷ []

-- A span of the blob that is written at an offset.
unfoldable pub put : ℕ → List ℕ → List ℕ → List ℕ
put offset bytes blob = take offset blob ++ bytes ++ drop (offset + length bytes) blob

-- A `do` block over results.
infixl 10 ◌then_do◌
abbrev pub ◌then_do◌ : {A B : Type 0} → Result A → (A → Result B) → Result B
ok a then_do f = f a
err e then_do f = err e
stuck then_do f = stuck

abbrev pub or_fail : {A : Type 0} → Option A → String → Result A
or_fail none message = err (error crypto message)
or_fail (some a) message = ok a

-- `0u - value`, which wraps.
abbrev pub negate_u32 : ℕ → ℕ
negate_u32 value = (4294967296 - value) % 4294967296

-- The blob behind the modulus, rr and the exponent, which stand in it already: the word count and
-- n0inv, from the first word of the modulus.
unfoldable pub put_words : List ℕ → List ℕ
put_words blob =
    let n0 = read_u32_le (take 4 (drop 8 blob)) in
    put 4 (write_u32_le (negate_u32 (inverse_mod_2_32 n0)))
      (put 0 (write_u32_le (modulus_bytes / 4)) blob)

-- The blob before anything is written.
unfoldable pub blank_blob : List ℕ
blank_blob = replicate blob_size 0

unfoldable pub put_numbers : List ℕ → List ℕ → List ℕ → List ℕ → List ℕ
put_numbers modulus rr_bytes exponent blob =
    put (8 + 2 * modulus_bytes) exponent (put (8 + modulus_bytes) rr_bytes (put 8 modulus blob))

module _ {K : Type 0} (tls : Mbed K) where
  unfoldable pub to_little_endian : ℕ → ℕ → Result (List ℕ)
  to_little_endian size value =
      or_fail (tls.mpi_write_binary size value) "failed to serialize an RSA component"
      then_do λ big_endian. ok (reverse big_endian)

  unfoldable pub compute_rr : ℕ → Result ℕ
  compute_rr n = or_fail (tls.mpi_lset 1) "failed to derive RSA key parameters" then_do λ one.
      or_fail (tls.mpi_shift_l one (8 * modulus_bytes * 2)) "failed to derive RSA key parameters"
      then_do λ r_squared.
          or_fail (tls.mpi_mod_mpi r_squared n) "failed to derive RSA key parameters"

  -- The blob of `encode_public_key`.
  unfoldable pub blob_of : ℕ → ℕ → ℕ → Result (List ℕ)
  blob_of n rr e = to_little_endian modulus_bytes n then_do λ modulus.
      to_little_endian modulus_bytes rr then_do λ rr_bytes. to_little_endian 4 e then_do λ exponent.
      ok (put_words (put_numbers modulus rr_bytes exponent blank_blob))

  unfoldable pub encode_public_key : K → Result (List ℕ)
  encode_public_key pk = or_fail (tls.rsa_export pk) "failed to export the RSA key" then_do λ parts.
      compute_rr parts.0 then_do λ rr. blob_of parts.0 rr parts.1 then_do λ blob.
      or_fail (tls.base64_encode (4 * ((blob_size + 2) / 3) + 1) blob)
        "failed to encode the public key"
      then_do λ encoded. ok (encoded ++ codes " adbcpp@localhost")

  -- The label behind the space is not part of what is hashed.
  abbrev pub before_space : List ℕ → List ℕ
  before_space key = elim (find (codes " ") key) [ none ↦ key | some i ↦ take i key ]

  abbrev pub hex_digit : ℕ → ℕ
  hex_digit n = get_or (codes "0123456789ABCDEF") n 0

  abbrev pub hex_bytes : List ℕ → List ℕ
  hex_bytes [] = []
  hex_bytes (b ∷ bytes) = 58 ∷ hex_digit (b / 16) ∷ hex_digit (b % 16) ∷ hex_bytes bytes

  abbrev pub hex_pairs : List ℕ → List ℕ
  hex_pairs [] = []
  hex_pairs (b ∷ bytes) = hex_digit (b / 16) ∷ hex_digit (b % 16) ∷ hex_bytes bytes

  unfoldable pub fingerprint : List ℕ → Result (List ℕ)
  fingerprint public_key =
      or_fail (tls.base64_decode (4 * ((blob_size + 2) / 3) + 1) (before_space public_key))
        "failed to decode the ADB public key"
      then_do λ blob. ok (hex_pairs (tls.md5 blob))
