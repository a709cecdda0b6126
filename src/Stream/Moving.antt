-- ===== src/Stream/Moving.antt =====
-- The move constructor, the move assignment and the destructor of src/stream.cpp, on stream objects
-- that borrow the same connection.
use adbcpp.Base.{ℕ, zero, suc, List, [], ◌∷◌, ◌++◌, true, Option, none, some, ◌==◌, if◌then◌else◌}
use adbcpp.Connection.{Connection}
use adbcpp.Stream.{Stream, close_now}

-- The objects, each at its position.
pub record Objects : Type 0 where
  pub connection : Connection
  pub streams : List Stream

abbrev pub at : ℕ → List Stream → Option Stream
at i [] = none
at zero (s ∷ ss) = some s
at (suc i) (s ∷ ss) = at i ss

abbrev pub replace_at : ℕ → Stream → List Stream → List Stream
replace_at i x [] = []
replace_at zero x (s ∷ ss) = x ∷ ss
replace_at (suc i) x (s ∷ ss) = s ∷ replace_at i x ss

-- The new object, and what is left of the old one: a vector that was moved from is empty, and a
-- string that was moved from holds some `text`.
unfoldable pub move_construct : List ℕ → Stream → Stream × Stream
move_construct text other = (other, record other { service = text; incoming = []; closed = true })

-- `*this` and `other` are two objects.
unfoldable pub move_assign : List ℕ → Connection → Stream → Stream → Connection × Stream × Stream
move_assign text c this other =
    let closed = close_now (record { connection = c; stream = this }) in
    let (taken, left) = move_construct text other in
    (
      closed.connection,
      record closed.stream {
        service = taken.service;
        local_id = taken.local_id;
        remote_id = taken.remote_id;
        closed = taken.closed;
        incoming = taken.incoming;
        incoming_offset = taken.incoming_offset;
      },
      left,
    )

-- `Stream moved(std::move(object j))`: the new object stands behind the others.
abbrev pub constructed : List ℕ → ℕ → Objects → Option Stream → Objects
constructed text j o none = o
constructed text j o (some other) =
    let (new, left) = move_construct text other in
    record o { streams = replace_at j left o.streams ++ new ∷ [] }

-- `object i = std::move(object j)`
abbrev pub assigned : List ℕ → ℕ → ℕ → Objects → Option Stream → Option Stream → Objects
assigned text i j o (some this) (some other) =
    let (c, new, left) = move_assign text o.connection this other in
    record { connection = c; streams = replace_at j left (replace_at i new o.streams) }
assigned text i j o _ _ = o

-- The destructor of object `i`.
abbrev pub destroyed : ℕ → Objects → Option Stream → Objects
destroyed i o none = o
destroyed i o (some s) =
    let c = close_now (record { connection = o.connection; stream = s }) in
    record { connection = c.connection; streams = replace_at i c.stream o.streams }

pub data Operation : Type 0 where
  construct : List ℕ → ℕ → Operation
  assign : List ℕ → ℕ → ℕ → Operation
  destroy : ℕ → Operation

unfoldable pub operate : Operation → Objects → Objects
operate (construct text j) o = constructed text j o (at j o.streams)
operate (assign text i j) o =
    if i == j then o else assigned text i j o (at i o.streams) (at j o.streams)
operate (destroy i) o = destroyed i o (at i o.streams)

unfoldable pub operate_all : List Operation → Objects → Objects
operate_all [] o = o
operate_all (p ∷ ps) o = operate_all ps (operate p o)
