-- ===== src/Connection.antt =====
-- src/connection.cpp and include/adbcpp/connection.hpp: the handshake and the state of a connection.
pub mod Banner
pub mod Features
pub mod Calls
pub mod Dialogue
pub mod Replies
pub mod Handshake
pub mod Settling
pub mod Identity
use adbcpp.Base.{
  ℕ, suc, ◌+◌, ◌%◌, List, [], ◌∷◌, ◌++◌, String, Bool, true, false, not, ◌&&◌, ◌==◌, if◌then◌else◌,
  Option, none, some, is_empty, length, codes, contains,
}
use adbcpp.Outcome.{Result, Status, ok, err, stuck, error, protocol, crypto}
use adbcpp.Outcome.Exec.{Exec, pure, fail, lift, ◌>>=◌, ◌>>◌, continue}
use adbcpp.Transport.{Link}
use adbcpp.Protocol.Commands.{cnxn, auth, version, max_data, auth_signature, auth_public_key}
use adbcpp.Protocol.Message.{Message, compute_magic, compute_checksum, data_length_of}
use adbcpp.Session
use adbcpp.Session.{Session, Frame, over}
use adbcpp.Connection.Banner.{parse_features, parse_serial}

pub record Connection : Type 0 where
  pub session : Session
  pub device_version : ℕ
  pub peer_max_data : ℕ
  pub next_local_id : ℕ
  pub features : List (List ℕ)
  pub serial : List ℕ
  pub delayed_ack : Bool
  pub requested_authorization : Bool

-- The constructor.
abbrev pub fresh : Link → Connection
fresh l = record {
  session = over l;
  device_version = 0;
  peer_max_data = 0;
  next_local_id = 2;
  features = [];
  serial = [];
  delayed_ack = false;
  requested_authorization = false;
}

abbrev pub on_session : {A : Type 0} → Exec Session A → Exec Connection A
on_session m c = ((m c.session).0, record c { session = (m c.session).1 })

unfoldable pub send : Message → List ℕ → Exec Connection Unit
send header payload = on_session (Session.send header payload)

unfoldable pub receive : Exec Connection Frame
receive = on_session Session.receive

unfoldable pub close : Connection → Connection
close c = record c { session = Session.close c.session }

-- The id for a new stream; `std::uint32_t` wraps.
unfoldable pub allocate_local_id : Exec Connection ℕ
allocate_local_id c =
    (ok c.next_local_id, record c { next_local_id = (c.next_local_id + 1) % 4294967296 })

unfoldable pub supports_feature : Connection → List ℕ → Bool
supports_feature c feature = contains c.features feature

-- The serial of the transport, if it has one, and the banner's otherwise.
unfoldable pub device_serial : Connection → List ℕ
device_serial c = if is_empty c.session.link.serial then c.serial else c.session.link.serial

-- The options that the library was built with.
pub record Build : Type 0 where
  pub compression : Bool
  pub zstd : Bool
  pub lz4 : Bool
  pub brotli : Bool

abbrev pub delayed_ack_feature : List ℕ
delayed_ack_feature = codes "delayed_ack"

-- The banner that the host sends.
unfoldable pub system_identity : Build → Bool → List ℕ
system_identity b advertise_delayed_ack =
    codes "host::features=shell_v2,stat_v2,ls_v2"
    ++ ((if b.compression
          then codes ",sendrecv_v2"
            ++ ((if b.zstd then codes ",sendrecv_v2_zstd" else [])
                ++ ((if b.lz4 then codes ",sendrecv_v2_lz4" else [])
                    ++ (if b.brotli then codes ",sendrecv_v2_brotli" else [])))
          else [])
        ++ (if advertise_delayed_ack then codes "," ++ delayed_ack_feature else []))

unfoldable pub make_auth : ℕ → List ℕ → Result Message
make_auth type payload = elim (data_length_of payload) [
  | ok length ↦ ok (record {
    command = auth;
    arg0 = type;
    arg1 = 0;
    data_length = length;
    data_check = compute_checksum payload;
    magic = compute_magic auth;
  })
  | err e ↦ err e
  | stuck ↦ stuck
]

-- `std::function`: signs a token, or fails. An empty one is `none`.
abbrev pub Signer : Type 0
Signer = Option (List ℕ → Result (List ℕ))

-- AUTH with the signature of the token, and the answer to it.
unfoldable pub answer_token : Signer → Frame → Exec Connection Frame
answer_token none frame = pure frame
answer_token (some sign) frame = do
  signature ← lift (sign frame.payload)
  header ← lift (make_auth auth_signature signature)
  send header signature
  receive

-- AUTH with the public key, which the device shows to its user, and the answer to it.
unfoldable pub offer_key : List ℕ → Frame → Exec Connection Frame
offer_key public_key frame c =
    if not (frame.header.command == auth)
    then (ok frame, c)
    else (if is_empty public_key
          then fail (
              error crypto
                "the device rejected the signature and no public key is available to request authorization")
          else do
            header ← lift (make_auth auth_public_key (public_key ++ 0 ∷ []))
            send header (public_key ++ 0 ∷ [])
            receive)
        (record c { requested_authorization = true })

unfoldable pub authenticate : List ℕ → Signer → Frame → Exec Connection Frame
authenticate public_key signer frame =
    if frame.header.command == auth
    then (do second ← answer_token signer frame; offer_key public_key second)
    else pure frame

-- The device's CNXN: its version, its largest payload and its banner.
unfoldable pub finish : Bool → Frame → Exec Connection Unit
finish advertise_delayed_ack frame c =
    if not (frame.header.command == cnxn)
    then (err (error protocol "unexpected response to the CNXN message"), c)
    else let features = parse_features frame.payload in
      (
        ok tt,
        record c {
          device_version = frame.header.arg0;
          peer_max_data = frame.header.arg1;
          features = features;
          serial = parse_serial frame.payload;
          delayed_ack = advertise_delayed_ack && contains features delayed_ack_feature;
        },
      )

abbrev pub connect_message : List ℕ → ℕ → Message
connect_message identity length = record {
  command = cnxn;
  arg0 = version;
  arg1 = max_data;
  data_length = length;
  data_check = compute_checksum identity;
  magic = compute_magic cnxn;
}

unfoldable pub handshake : Build → List ℕ → Signer → Bool → Exec Connection Unit
handshake b public_key signer advertise_delayed_ack = do
  let identity = system_identity b advertise_delayed_ack
  length ← lift (data_length_of identity)
  send (connect_message identity length) identity
  frame ← receive
  last ← authenticate public_key signer frame
  finish advertise_delayed_ack last

-- `Connection::connect`: the connection, or the reason and the transport as it was left.
unfoldable pub connect : Build → List ℕ → Signer → Bool → Link → Result Connection × Link
connect b public_key signer advertise_delayed_ack l =
    let (r, c) = handshake b public_key signer advertise_delayed_ack (fresh l) in
    (elim r [ ok _ ↦ ok c | err e ↦ err e | stuck ↦ stuck ], c.session.link)
