-- ===== src/Shell/Packets.antt =====
-- shell_v2 packets: what `run_v2` makes of the output of a device that frames it in packets.
use adbcpp.Base.{
  ℕ, zero, suc, ◌≤◌, ◌<◌, ◌≡◌, refl, ap, ◌∙◌, List, [], ◌∷◌, ◌++◌, append_assoc, append-nil, arith,
  Bool, ◌||◌, leb, ◌==◌, if◌then◌else◌, length, length-append, drop, get_or, take-append,
  drop-append, All, IsU32, ◌⊎◌, inl, inr, lt→ltb, not_lt→ltb,
}
use adbcpp.Protocol.ByteOrder.{write_u32_le, read_u32_le, read_u32_le-write_u32_le}
use adbcpp.Shell.{CommandResult, no_result, add_packet, parse_packets, packets_result}

pub record Packet : Type 0 where
  pub id : ℕ
  pub bytes : List ℕ

-- The id, the length as a little-endian word, and the bytes.
abbrev pub packet_bytes : Packet → List ℕ
packet_bytes p = p.id ∷ (write_u32_le (length p.bytes) ++ p.bytes)

abbrev pub stream : List Packet → List ℕ
stream [] = []
stream (p ∷ ps) = packet_bytes p ++ stream ps

-- The length fits its word.
abbrev pub IsSized : Packet → Type 0
IsSized p = IsU32 (length p.bytes)

-- The front of a packet whose end is missing, or nothing.
abbrev pub IsCut : List ℕ → Type 0
IsCut tail = (length tail < 5) ⊎ (length (drop 5 tail) < read_u32_le (drop 1 tail))

abbrev pub add_packets : List Packet → CommandResult → CommandResult
add_packets [] r = r
add_packets (p ∷ ps) r = add_packets ps (add_packet p.id p.bytes r)

parse_cut :
    (fuel : ℕ) (tail : List ℕ) (r : CommandResult) → IsCut tail → parse_packets fuel tail r ≡ r
unfolding parse_packets
parse_cut zero tail r h = refl
parse_cut (suc fuel) tail r (inl h) = rw (lt→ltb (length tail) 5 h)
parse_cut (suc fuel) tail r (inr h) = ground arith

parse_packet :
    (fuel : ℕ) (p : Packet) (rest : List ℕ) (r : CommandResult)
    → IsSized p
    → parse_packets (suc fuel) (packet_bytes p ++ rest) r
      ≡ parse_packets fuel rest (add_packet p.id p.bytes r)
unfolding parse_packets write_u32_le
parse_packet fuel p rest r h =
    let size = read_u32_le-write_u32_le (length p.bytes) (p.bytes ++ rest) h in
    let all : List ℕ = p.bytes ++ rest in
    rw (
      not_lt→ltb (length (packet_bytes p ++ rest)) 5 (omega arith),
      size,
      not_lt→ltb (length all) (length p.bytes) (omega (arith, length-append p.bytes rest)),
      take-append (length p.bytes) p.bytes rest refl,
      drop-append (length p.bytes) p.bytes rest refl,
    )

parse-stream :
    (fuel : ℕ) (ps : List Packet) (tail : List ℕ) (r : CommandResult)
    → All IsSized ps
    → IsCut tail
    → length (stream ps ++ tail) ≤ fuel
    → parse_packets fuel (stream ps ++ tail) r ≡ add_packets ps r
parse-stream fuel [] tail r h t f = parse_cut fuel tail r t
parse-stream zero (p ∷ ps) tail r h t f = absurd (omega arith)
parse-stream (suc fuel) (p ∷ ps) tail r (hp, h) t f =
    ap (λ raw. parse_packets (suc fuel) raw r) (append_assoc (packet_bytes p) (stream ps) tail)
    ∙ parse_packet fuel p (stream ps ++ tail) r hp
    ∙ parse-stream fuel ps tail (add_packet p.id p.bytes r) h t (
        omega (
          arith,
          length-append (packet_bytes p) (stream ps),
          length-append (packet_bytes p ++ stream ps) tail,
          length-append (stream ps) tail,
        ))

-- The bytes of the packets that `keep` keeps, in order.
abbrev pub select : (ℕ → Bool) → List Packet → List ℕ
select keep [] = []
select keep (p ∷ ps) = (if keep p.id then p.bytes else []) ++ select keep ps

-- The status in the last exit packet that holds one.
abbrev pub last_status : ℕ → List Packet → ℕ
last_status code [] = code
last_status code (p ∷ ps) =
    last_status
      (if p.id == 3 then (if leb 1 (length p.bytes) then get_or p.bytes 0 0 else code) else code) ps

-- What the packets add to a result.
abbrev pub summary : List Packet → CommandResult → CommandResult
summary ps r = record r {
  output = r.output ++ select (λ id. id == 1 || id == 2) ps;
  standard_output = r.standard_output ++ select (λ id. id == 1) ps;
  error_output = r.error_output ++ select (λ id. id == 2) ps;
  exit_code = last_status r.exit_code ps;
}

summary-add_packet :
    (p : Packet) (ps : List Packet) (r : CommandResult)
    → summary ps (add_packet p.id p.bytes r) ≡ summary (p ∷ ps) r
unfolding add_packet
summary-add_packet p ps r = ground (
  arith,
  append_assoc r.output p.bytes (select (λ id. id == 1 || id == 2) ps),
  append_assoc r.standard_output p.bytes (select (λ id. id == 1) ps),
  append_assoc r.error_output p.bytes (select (λ id. id == 2) ps),
)

add_packets-summary : (ps : List Packet) (r : CommandResult) → add_packets ps r ≡ summary ps r
add_packets-summary [] r =
    rw (append-nil r.output, append-nil r.standard_output, append-nil r.error_output)
add_packets-summary (p ∷ ps) r =
    add_packets-summary ps (add_packet p.id p.bytes r) ∙ summary-add_packet p ps r

-- For a device that sends packets, and perhaps the front of one more, the combined output is the
-- bytes of the packets 1 and 2 in the order of the packets, the two separate outputs are those of 1
-- and of 2, the exit code is the byte of the last exit packet that holds one (0 if none does), and
-- the command worked exactly if that is 0. Other packets and the cut one change nothing.
pub packets_result-stream :
    (ps : List Packet) (tail : List ℕ)
    → All IsSized ps
    → IsCut tail
    → packets_result (stream ps ++ tail) ≡ record {
      output = select (λ id. id == 1 || id == 2) ps;
      standard_output = select (λ id. id == 1) ps;
      error_output = select (λ id. id == 2) ps;
      exit_code = last_status 0 ps;
      success = last_status 0 ps == 0;
    }
unfolding packets_result
packets_result-stream ps tail h t =
    let e =
      parse-stream (length (stream ps ++ tail)) ps tail no_result h t (omega arith)
      ∙ add_packets-summary ps no_result in
    ap (λ (r : CommandResult). record r { success = r.exit_code == 0 }) e
