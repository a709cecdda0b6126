-- ===== src/Connection/Identity.antt =====
-- The parsers of src/connection.cpp on a banner as a device writes it (docs/dev/protocol.md).
use adbcpp.Base.{
  ℕ, suc, ◌+◌, ◌-◌, ◌≡◌, refl, ap, ◌∙◌, sym, List, [], ◌∷◌, ◌++◌, append_assoc, append-nil, arith,
  All, none, some, length, take, drop, take-append, drop-append_ge, codes,
}
use adbcpp.Base.Text.{find, find_from}
use adbcpp.Base.Search.{
  Lacks, find-lacking, find-none, IsBorderless, IsBorderless-Lacks, find-behind,
}
use adbcpp.Connection.Banner.{parse_property, parse_features, parse_serial, features_loop}
use adbcpp.Connection.Features.{IsName, join, features_loop-join}

abbrev pub features_key : List ℕ
features_key = codes "features="

features_key-IsBorderless : IsBorderless features_key
features_key-IsBorderless = IsBorderless-Lacks b'f' (codes "eatures=") (omega arith)

-- The value of a property ends at the `;` of the next, or at the end of the banner.
pub data EndsValue : List ℕ → Type 0 where
  at_end : EndsValue []
  at_next : (more : List ℕ) → EndsValue (b';' ∷ more)

abbrev to_stop : List ℕ → List ℕ
to_stop text = elim (find (codes ";") text) [ none ↦ text | some stop ↦ take stop text ]

value_stops :
    (value tail : List ℕ) → Lacks b';' value → EndsValue tail → to_stop (value ++ tail) ≡ value
value_stops value tail free at_end =
    ap to_stop (append-nil value) ∙ rw (to_stop, find-none b';' [] value free)
value_stops value tail free (at_next more) =
    rw (to_stop, find-lacking b';' [] value more free)
      (take-append (length value) value (b';' ∷ more) refl)

property_found :
    (position : ℕ) (text : List ℕ)
    → find features_key text ≡ some position
    → parse_property text features_key ≡ to_stop (drop (position + 9) text)
unfolding parse_property
property_found position text e = rw (parse_property, e)

property_here :
    (front value tail : List ℕ)
    → find features_key front ≡ none
    → Lacks b';' value
    → EndsValue tail
    → parse_property (front ++ (features_key ++ (value ++ tail))) features_key ≡ value
property_here front value tail h free e =
    let rest : List ℕ = value ++ tail in
    let gone : drop (length front + 9) (front ++ (features_key ++ rest)) ≡ rest =
      drop-append_ge (length front + 9) 9 front (features_key ++ rest) refl in
    property_found (length front) (front ++ (features_key ++ rest))
      (find-behind features_key front rest features_key-IsBorderless (omega arith) h)
    ∙ ap to_stop gone
    ∙ value_stops value tail free e

-- What stands before the features: `<systemtype>::<serialno>::` and other properties.
abbrev pub front : List ℕ → List ℕ → List ℕ → List ℕ
front system serial before = system ++ (codes "::" ++ (serial ++ (codes "::" ++ before)))

-- A banner with features, and with other properties around them.
abbrev pub banner : List ℕ → List ℕ → List ℕ → List (List ℕ) → List ℕ → List ℕ
banner system serial before names tail =
    front system serial (before ++ (features_key ++ (join names ++ tail)))

-- What the parts of a banner have to be for it to be read back: no `:` in the first two, no
-- `features=` before the features, and no `;` among them.
pub record IsBanner (system serial before : List ℕ) (names : List (List ℕ)) (tail : List ℕ)
    : Type 0 where
  pub system_part : Lacks b':' system
  pub serial_part : Lacks b':' serial
  pub first_features : find features_key (front system serial before) ≡ none
  pub names_part : All IsName names
  pub list_part : Lacks b';' (join names)
  pub tail_part : EndsValue tail

front-append :
    (system serial before rest : List ℕ)
    → front system serial (before ++ rest) ≡ front system serial before ++ rest
front-append system serial before rest =
    ap (λ t. system ++ (codes "::" ++ t)) (sym (append_assoc serial (codes "::" ++ before) rest))
    ∙ sym (append_assoc system (codes "::" ++ (serial ++ (codes "::" ++ before))) rest)

parse_features-banner :
    (system serial before : List ℕ) (names : List (List ℕ)) (tail : List ℕ)
    → IsBanner system serial before names tail
    → parse_features (banner system serial before names tail) ≡ names
unfolding parse_features
parse_features-banner system serial before names tail h =
    let list = join names in
    let value : parse_property (banner system serial before names tail) features_key ≡ list =
      ap (λ t. parse_property t features_key)
        (front-append system serial before (features_key ++ (list ++ tail)))
      ∙ property_here (front system serial before) list tail h.first_features h.list_part
          h.tail_part in
    ap (λ t. features_loop (suc (length t)) t) value
    ∙ features_loop-join (suc (length list)) names h.names_part (omega arith)

parse_serial-front :
    (system serial rest : List ℕ)
    → Lacks b':' system
    → Lacks b':' serial
    → parse_serial (front system serial rest) ≡ serial
unfolding parse_serial find_from
parse_serial-front system serial rest hs h =
    let colons : List ℕ = codes "::" in
    let behind : List ℕ = serial ++ (colons ++ rest) in
    let gone : drop (length system + 2) (system ++ (colons ++ behind)) ≡ behind =
      drop-append_ge (length system + 2) 2 system (colons ++ behind) refl in
    let size : length system + 2 + length serial - length system - 2 ≡ length serial =
      omega arith in
    rw
      (
        parse_serial,
        find-lacking b':' (b':' ∷ []) system behind hs,
        find_from,
        gone,
        find-lacking b':' (b':' ∷ []) serial rest h,
        size,
      )
      (ap (λ t. take (length serial) t) gone
        ∙ take-append (length serial) serial (colons ++ rest) refl)

-- The serial and the names of the features, in order, come back from a banner that has them.
pub banner_lem :
    (system serial before : List ℕ) (names : List (List ℕ)) (tail : List ℕ)
    → IsBanner system serial before names tail
    → (parse_serial (banner system serial before names tail) ≡ serial)
      × (parse_features (banner system serial before names tail) ≡ names)
banner_lem system serial before names tail h = (
  parse_serial-front system serial (before ++ (features_key ++ (join names ++ tail))) h.system_part
      h.serial_part,
  parse_features-banner system serial before names tail h,
)
