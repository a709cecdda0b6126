-- ===== src/Tcp/Endpoint.antt =====
-- The part of `TcpTransport::open` of src/tcp/tcp_transport.cpp that takes `host:port` apart.
use adbcpp.Base.{
  ℕ, suc, ◌-◌, ◌≡◌, ◌≢◌, refl, ◌∙◌, Bool, false, ◌&&◌, ◌||◌, ◌==◌, leb, if◌then◌else◌, List, [],
  ◌∷◌, ◌++◌, Option, none, some, length, take, drop, is_empty, arith, All, take-append,
  length-append, le→leb,
}
use adbcpp.Outcome.{Result, ok, err, error, invalid_argument}

-- The last position of a character.
unfoldable pub rfind : ℕ → List ℕ → Option ℕ
rfind key [] = none
rfind key (c ∷ text) = elim (rfind key text) [
  | some i ↦ some (suc i)
  | none ↦ if c == key then some 0 else none
]

-- `std::string::back`, of a text that is not empty.
abbrev pub back : ℕ → List ℕ → ℕ
back c [] = c
back c (d ∷ text) = back d text

abbrev pub is_bracketed : List ℕ → Bool
is_bracketed [] = false
is_bracketed (c ∷ text) = leb 2 (suc (length text)) && c == 91 && back c text == 93

-- `[` and `]` are taken off a host that stands in them.
unfoldable pub strip_brackets : List ℕ → List ℕ
strip_brackets host = if is_bracketed host then take (length host - 2) (drop 1 host) else host

abbrev pub split_at : List ℕ → Option ℕ → Result (List ℕ × List ℕ)
split_at endpoint none = err (error invalid_argument "the endpoint is not a host:port pair")
split_at endpoint (some separator) =
    let host = strip_brackets (take separator endpoint) in
    let port = drop (suc separator) endpoint in
    if is_empty host || is_empty port
    then err (error invalid_argument "the endpoint is not a host:port pair")
    else ok (host, port)

unfoldable pub split_endpoint : List ℕ → Result (List ℕ × List ℕ)
split_endpoint endpoint = split_at endpoint (rfind 58 endpoint)

-- A port without a colon.
abbrev pub NoColon : List ℕ → Type 0
NoColon port = All (λ (c : ℕ). c ≢ 58) port

rfind-none : (port : List ℕ) → NoColon port → rfind 58 port ≡ none
unfolding rfind
rfind-none [] h = refl
rfind-none (c ∷ port) (h, hs) = rw (rfind-none port hs) (ground arith)

rfind-last : (host port : List ℕ) → NoColon port → rfind 58 (host ++ 58 ∷ port) ≡ some (length host)
unfolding rfind
rfind-last [] port h = rw (rfind-none port h)
rfind-last (c ∷ host) port h = rw (rfind-last host port h)

drop-past : (host port : List ℕ) (c : ℕ) → drop (suc (length host)) (host ++ c ∷ port) ≡ port
drop-past [] port c = refl
drop-past (d ∷ host) port c = drop-past host port c

split_endpoint-at :
    (host port : List ℕ)
    → NoColon port
    → split_endpoint (host ++ 58 ∷ port) ≡ (
        if is_empty (strip_brackets host) || is_empty port
        then err (error invalid_argument "the endpoint is not a host:port pair")
        else ok (strip_brackets host, port))
unfolding split_endpoint
split_endpoint-at host port h = rw (
  rfind-last host port h,
  take-append (length host) host (58 ∷ port) refl,
  drop-past host port 58,
)

back-append : (c b : ℕ) (text : List ℕ) → back c (text ++ b ∷ []) ≡ b
back-append c b [] = refl
back-append c b (d ∷ text) = back-append d b text

strip-bracketed : (host : List ℕ) → strip_brackets (91 ∷ host ++ 93 ∷ []) ≡ host
unfolding strip_brackets
strip-bracketed host =
    let long = length-append host (93 ∷ []) in
    let pair = le→leb 2 (suc (length (host ++ 93 ∷ []))) (omega arith) in
    let inner : suc (length (host ++ 93 ∷ [])) - 2 ≡ length host = omega arith in
    rw (pair, back-append 91 93 host, inner, take-append (length host) host (93 ∷ []) refl)

-- The text of an endpoint: a host as it stands, or in brackets, with the port behind the last colon.
pub data IsEndpoint : List ℕ → List ℕ → List ℕ → Type 0 where
  plain :
      (host port : List ℕ) → is_bracketed host ≡ false → IsEndpoint host port (host ++ 58 ∷ port)
  bracketed : (host port : List ℕ) → IsEndpoint host port ((91 ∷ host ++ 93 ∷ []) ++ 58 ∷ port)

nonempty : (xs : List ℕ) → xs ≢ [] → is_empty xs ≡ false
nonempty [] h = absurd (h refl)
nonempty (x ∷ xs) h = refl

-- An endpoint is taken apart into its host and its port, whatever colons the host has, where the port
-- has none and neither is empty.
pub split_endpoint-IsEndpoint :
    (host port endpoint : List ℕ)
    → IsEndpoint host port endpoint
    → NoColon port
    → host ≢ []
    → port ≢ []
    → split_endpoint endpoint ≡ ok (host, port)
unfolding strip_brackets
split_endpoint-IsEndpoint host port endpoint (plain _ _ whole) h hn pn =
    let stripped : strip_brackets host ≡ host = rw whole in
    split_endpoint-at host port h ∙ rw (stripped, nonempty host hn, nonempty port pn)
split_endpoint-IsEndpoint host port endpoint (bracketed _ _) h hn pn =
    split_endpoint-at (91 ∷ host ++ 93 ∷ []) port h
    ∙ rw (strip-bracketed host, nonempty host hn, nonempty port pn)
