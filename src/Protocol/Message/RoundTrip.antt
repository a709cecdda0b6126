-- ===== src/Protocol/Message/RoundTrip.antt =====
-- `Message::encode` and `Message::decode` are inverse to one another.
use adbcpp.Base.{
  ℕ, zero, suc, ◌+◌, ◌≤◌, ◌≡◌, refl, ap, sym, ◌∙◌, List, [], ◌∷◌, ◌++◌, arith, length, drop,
  drop-all, append-nil, AllBytes,
}
use adbcpp.Protocol.ByteOrder.{
  write_u32_le, read_u32_le, read_u32_le-write_u32_le, write_u32_le-read_u32_le,
}
use adbcpp.Protocol.Message.{Message, IsMessage, encode, decode}

pub length-encode : (m : Message) → length (encode m) ≡ 24
unfolding encode write_u32_le
length-encode m = refl

-- Decoding an encoded header whose fields are 32-bit words gives the header back.
pub decode-encode : (m : Message) → IsMessage m → decode (encode m) ≡ m
unfolding decode encode write_u32_le
decode-encode m h = λ i. record {
  command = read_u32_le-write_u32_le m.command (drop 4 (encode m)) h.command i;
  arg0 = read_u32_le-write_u32_le m.arg0 (drop 8 (encode m)) h.arg0 i;
  arg1 = read_u32_le-write_u32_le m.arg1 (drop 12 (encode m)) h.arg1 i;
  data_length = read_u32_le-write_u32_le m.data_length (drop 16 (encode m)) h.data_length i;
  data_check = read_u32_le-write_u32_le m.data_check (drop 20 (encode m)) h.data_check i;
  magic = read_u32_le-write_u32_le m.magic [] h.magic i;
}

-- The word at `n` and the bytes behind it are the bytes from `n` on.
word_at :
    (n m : ℕ) (bs : List ℕ)
    → AllBytes bs
    → m ≡ n + 4
    → m ≤ length bs
    → write_u32_le (read_u32_le (drop n bs)) ++ drop m bs ≡ drop n bs
word_at zero m (a ∷ b ∷ c ∷ d ∷ rest) (ha, (hb, (hc, (hd, h)))) e l =
    let four : m ≡ 4 = omega arith in rw (four, write_u32_le-read_u32_le a b c d rest ha hb hc hd)
word_at zero m [] h e l = absurd (omega arith)
word_at zero m (a ∷ []) h e l = absurd (omega arith)
word_at zero m (a ∷ b ∷ []) h e l = absurd (omega arith)
word_at zero m (a ∷ b ∷ c ∷ []) h e l = absurd (omega arith)
word_at (suc n) m [] h e l = absurd (omega arith)
word_at (suc n) zero (x ∷ bs) h e l = absurd (omega arith)
word_at (suc n) (suc m) (x ∷ bs) (hx, h) e l = word_at n m bs h (omega arith) (omega arith)

last_word :
    (bs : List ℕ)
    → AllBytes bs
    → length bs ≡ 24
    → write_u32_le (read_u32_le (drop 20 bs)) ≡ drop 20 bs
last_word bs h e =
    sym (append-nil _)
    ∙ ap (λ t. write_u32_le (read_u32_le (drop 20 bs)) ++ t) (sym (drop-all 24 bs (omega arith)))
    ∙ word_at 20 24 bs h (omega arith) (omega arith)

-- Encoding a decoded header gives its 24 bytes back.
pub encode-decode : (bs : List ℕ) → AllBytes bs → length bs ≡ 24 → encode (decode bs) ≡ bs
unfolding encode decode
encode-decode bs h e =
    let at : (n m : ℕ)
        → m ≡ n + 4
        → m ≤ 24
        → write_u32_le (read_u32_le (drop n bs)) ++ drop m bs ≡ drop n bs =
      λ n m p q. word_at n m bs h p (omega arith) in
    rw (
      last_word bs h e,
      at 16 20 (omega arith) (omega arith),
      at 12 16 (omega arith) (omega arith),
      at 8 12 (omega arith) (omega arith),
      at 4 8 (omega arith) (omega arith),
      at 0 4 (omega arith) (omega arith),
    )

-- So the wire form says exactly what the header is.
pub encode_injective : (m n : Message) → IsMessage m → IsMessage n → encode m ≡ encode n → m ≡ n
encode_injective m n hm hn e = sym (decode-encode m hm) ∙ ap decode e ∙ decode-encode n hn
