-- ===== src/Crypto/Layout.antt =====
-- The layout of the public key of src/crypto/adb_key.cpp, and what n0inv is.
use native.Mathlib.Nat.{mul-add, mod-lt}
use adbcpp.Base.{
  ℕ, zero, suc, ◌+◌, ◌-◌, ◌*◌, ◌%◌, ◌≤◌, ◌<◌, ◌≡◌, refl, sym, ap, ◌∙◌, List, [], ◌∷◌, ◌++◌, some,
  length, take, drop, replicate, take-append, drop-append, drop_add, append_assoc, append-nil,
  length-append, arith, IsU32,
}
use adbcpp.Outcome.{ok}
use adbcpp.Protocol.ByteOrder.{write_u32_le, read_u32_le, length-write_u32_le}
use adbcpp.Crypto.Newton.{newton, inverse_mod_2_32, inverse_mod_2_32-IsInverse}
use adbcpp.Crypto.Encoding.{
  Mbed, reverse, put, put_words, put_numbers, blank_blob, negate_u32, to_little_endian, blob_of,
}

put-at :
    (offset : ℕ) (a old c bytes : List ℕ)
    → length a ≡ offset
    → length old ≡ length bytes
    → put offset bytes (a ++ old ++ c) ≡ a ++ bytes ++ c
unfolding put
put-at offset a old c bytes h k =
    let whole = append_assoc a old c in
    let front = ap (take offset) whole ∙ take-append offset a (old ++ c) h in
    let back =
      ap (drop (offset + length bytes)) whole
      ∙ drop_add offset (length bytes) (a ++ (old ++ c))
      ∙ ap (drop (length bytes)) (drop-append offset a (old ++ c) h)
      ∙ drop-append (length bytes) old c k in
    rw (front, back)

abbrev pub zeros : ℕ → List ℕ
zeros n = replicate n 0

zeros_add : (m n : ℕ) → zeros (m + n) ≡ zeros m ++ zeros n
zeros_add zero n = let e : zero + n ≡ n = omega arith in rw e
zeros_add (suc m) n =
    let e : suc m + n ≡ suc (m + n) = omega arith in rw e (ap (◌∷◌ 0) (zeros_add m n))

length-zeros : (n : ℕ) → length (zeros n) ≡ n
length-zeros zero = refl
length-zeros (suc n) = ap suc (length-zeros n)

read-front : (m c : List ℕ) → 4 ≤ length m → read_u32_le (take 4 (m ++ c)) ≡ read_u32_le m
unfolding read_u32_le
read-front [] c h = absurd (omega arith)
read-front (x ∷ []) c h = absurd (omega arith)
read-front (x ∷ y ∷ []) c h = absurd (omega arith)
read-front (x ∷ y ∷ z ∷ []) c h = absurd (omega arith)
read-front (x ∷ y ∷ z ∷ w ∷ m) c h = refl

-- The five parts of the blob, in their order.
abbrev pub parts : List ℕ → List ℕ → List ℕ → List ℕ
parts modulus rr exponent =
    write_u32_le 64
    ++ write_u32_le (negate_u32 (inverse_mod_2_32 (read_u32_le modulus)))
    ++ modulus
    ++ rr
    ++ exponent

put_words-parts :
    (z y m c : List ℕ)
    → length z ≡ 4
    → length y ≡ 4
    → 4 ≤ length m
    → put_words (z ++ y ++ m ++ c)
      ≡ write_u32_le 64 ++ write_u32_le (negate_u32 (inverse_mod_2_32 (read_u32_le m))) ++ m ++ c
unfolding put_words
put_words-parts z y m c hz hy hm =
    let both = length-append z y in
    let skip : drop 8 (z ++ y ++ m ++ c) ≡ m ++ c =
      ap (drop 8) (append_assoc (z ++ y) m c) ∙ drop-append 8 (z ++ y) (m ++ c) (omega arith) in
    let inv = write_u32_le (negate_u32 (inverse_mod_2_32 (read_u32_le m))) in
    ap
      (λ (t : List ℕ).
        put 4 (write_u32_le (negate_u32 (inverse_mod_2_32 (read_u32_le (take 4 t)))))
          (put 0 (write_u32_le 64) (z ++ y ++ m ++ c)))
      skip
    ∙ ap
        (λ (t : ℕ).
          put 4 (write_u32_le (negate_u32 (inverse_mod_2_32 t)))
            (put 0 (write_u32_le 64) (z ++ y ++ m ++ c)))
        (read-front m c hm)
    ∙ ap (λ (t : List ℕ). put 4 inv (put 0 (write_u32_le 64) t))
        (append_assoc (z ++ y) m c ∙ append_assoc z y (m ++ c))
    ∙ ap (put 4 inv) (
        put-at 0 [] z (y ++ (m ++ c)) (write_u32_le 64) refl (hz ∙ sym (length-write_u32_le 64))
        ∙ sym (append_assoc (write_u32_le 64) y (m ++ c)))
    ∙ put-at 4 (write_u32_le 64) y (m ++ c) inv (length-write_u32_le 64)
        (hy ∙ sym (length-write_u32_le _))
    ∙ sym (append_assoc (write_u32_le 64 ++ inv) m c)

put_words-whole :
    (z y m r x : List ℕ)
    → length z ≡ 4
    → length y ≡ 4
    → 4 ≤ length m
    → put_words (z ++ y ++ m ++ r ++ x) ≡ parts m r x
put_words-whole z y m r x hz hy hm =
    ap put_words (append_assoc (z ++ y ++ m) r x)
    ∙ put_words-parts z y m (r ++ x) hz hy hm
    ∙ sym (append_assoc _ r x)

-- The three numbers, put into a blob whose places have their lengths.
put-numbers :
    (z y m0 r0 x0 m r x : List ℕ)
    → length z ≡ 4
    → length y ≡ 4
    → length m0 ≡ 256
    → length r0 ≡ 256
    → length x0 ≡ 4
    → length m ≡ 256
    → length r ≡ 256
    → length x ≡ 4
    → put_numbers m r x (z ++ y ++ m0 ++ r0 ++ x0) ≡ z ++ y ++ m ++ r ++ x
unfolding put_numbers
put-numbers z y m0 r0 x0 m r x hz hy hm0 hr0 hx0 hm hr hx =
    let front = length-append z y in
    let middle = length-append (z ++ y) m in
    let behind = length-append (z ++ y ++ m) r in
    let e0 = append_assoc (z ++ y ++ m0) r0 x0 in
    let e1 = put-at 8 (z ++ y) m0 (r0 ++ x0) m (omega arith) (hm0 ∙ sym hm) in
    let e2 = sym (append_assoc (z ++ y ++ m) r0 x0) in
    let e3 = put-at 264 (z ++ y ++ m) r0 x0 r (omega arith) (hr0 ∙ sym hr) in
    let e4 = sym (append-nil (z ++ y ++ m ++ r ++ x0)) in
    let e5 = put-at 520 (z ++ y ++ m ++ r) x0 [] x (omega arith) (hx0 ∙ sym hx) in
    ap (λ (t : List ℕ). put 520 x (put 264 r (put 8 m t))) e0
    ∙ ap (λ (t : List ℕ). put 520 x (put 264 r t)) (e1 ∙ e2)
    ∙ ap (put 520 x) (e3 ∙ e4)
    ∙ e5
    ∙ append-nil (z ++ y ++ m ++ r ++ x)

blank_blob-parts : blank_blob ≡ zeros 4 ++ zeros 4 ++ zeros 256 ++ zeros 256 ++ zeros 4
unfolding blank_blob
blank_blob-parts =
    zeros_add 520 4
    ∙ ap (λ (t : List ℕ). t ++ zeros 4)
        (zeros_add 264 256
          ∙ ap (λ (t : List ℕ). t ++ zeros 256)
              (zeros_add 8 256 ∙ ap (λ (t : List ℕ). t ++ zeros 256) (zeros_add 4 4)))

-- What the program relies on: a bignum is written into all of the bytes that it is given.
abbrev pub Writes : {K : Type 0} → Mbed K → Type 0
Writes tls =
    (size value : ℕ) (bytes : List ℕ)
    → tls.mpi_write_binary size value ≡ some bytes
    → length bytes ≡ size

length-reverse : (bytes : List ℕ) → length (reverse bytes) ≡ length bytes
unfolding reverse
length-reverse [] = refl
length-reverse (b ∷ bytes) =
    let sum = length-append (reverse bytes) (b ∷ []) in
    let rest = length-reverse bytes in omega arith

negated :
    (n0 inverse : ℕ)
    → n0 * inverse % 4294967296 ≡ 1
    → inverse < 4294967296
    → (n0 * negate_u32 inverse + 1) % 4294967296 ≡ 0
negated n0 zero e h = let none_left : n0 * 0 ≡ 0 = omega arith in absurd (omega arith)
negated n0 (suc inverse) e h =
    let kept : negate_u32 (suc inverse) ≡ 4294967296 - suc inverse = omega arith in
    let sum : n0 * (4294967296 - suc inverse) + n0 * suc inverse ≡ n0 * 4294967296 =
      sym (mul-add n0 (4294967296 - suc inverse) (suc inverse)) ∙ ap (◌*◌ n0) (omega arith) in
    rw kept (omega arith)

-- The modulus times n0inv is -1 modulo 2^32, for an odd modulus.
pub n0inv-IsInverse :
    (n0 : ℕ) → IsU32 n0 → n0 % 2 ≡ 1 → (n0 * negate_u32 (inverse_mod_2_32 n0) + 1) % 4294967296 ≡ 0
unfolding inverse_mod_2_32 newton
n0inv-IsInverse n0 h odd =
    negated n0 (inverse_mod_2_32 n0) (inverse_mod_2_32-IsInverse n0 h odd) (mod-lt _ (omega arith))

module _ {K : Type 0} (tls : Mbed K) where
  -- Where a bignum is written into all of the bytes that it is given, and the three numbers can be
  -- written, the blob is the word count 64, n0inv, the modulus, rr and the exponent in this order, each
  -- in little-endian order.
  pub blob_of-parts :
      Writes tls
      → (n rr e : ℕ) (modulus rr_bytes exponent : List ℕ)
      → tls.mpi_write_binary 256 n ≡ some modulus
      → tls.mpi_write_binary 256 rr ≡ some rr_bytes
      → tls.mpi_write_binary 4 e ≡ some exponent
      → blob_of tls n rr e ≡ ok (parts (reverse modulus) (reverse rr_bytes) (reverse exponent))
  unfolding blob_of to_little_endian
  blob_of-parts writes n rr e modulus rr_bytes exponent hn hr he =
      let hm = length-reverse modulus ∙ writes 256 n modulus hn in
      let hrr = length-reverse rr_bytes ∙ writes 256 rr rr_bytes hr in
      let hx = length-reverse exponent ∙ writes 4 e exponent he in
      let numbers =
        ap (put_numbers (reverse modulus) (reverse rr_bytes) (reverse exponent)) blank_blob-parts
        ∙ put-numbers (zeros 4) (zeros 4) (zeros 256) (zeros 256) (zeros 4) (reverse modulus)
            (reverse rr_bytes) (reverse exponent) (length-zeros 4) (length-zeros 4)
            (length-zeros 256) (length-zeros 256) (length-zeros 4) hm hrr hx in
      rw (hn, hr, he)
        (ap (λ (t : List ℕ). ok (put_words t)) numbers
          ∙ ap ok (
              put_words-whole (zeros 4) (zeros 4) (reverse modulus) (reverse rr_bytes)
                (reverse exponent) (length-zeros 4) (length-zeros 4) (omega arith)))
