-- ===== src/Connection/Banner.antt =====
-- The parsers of a CNXN banner, from src/connection.cpp.
use adbcpp.Base.{
  ℕ, zero, suc, ◌+◌, ◌-◌, List, [], ◌∷◌, none, some, length, take, drop, codes, find, find_from,
}

-- The value of `key`, up to the next `;`.
unfoldable pub parse_property : List ℕ → List ℕ → List ℕ
parse_property banner key = elim (find key banner) [
  | none ↦ []
  | some position ↦
      let value = drop (position + length key) banner in
      elim (find (codes ";") value) [ none ↦ value | some stop ↦ take stop value ]
]

-- An element of the list, unless it is empty.
abbrev pub keep : List ℕ → List (List ℕ) → List (List ℕ)
keep [] rest = rest
keep (b ∷ bs) rest = (b ∷ bs) ∷ rest

-- The loop of `parse_features`, on the part of the list from `start` on.
unfoldable pub features_loop : ℕ → List ℕ → List (List ℕ)
features_loop zero list = []
features_loop (suc fuel) list = elim (find (codes ",") list) [
  | none ↦ keep list []
  | some comma ↦ keep (take comma list) (features_loop fuel (drop (suc comma) list))
]

-- Each round but the last takes a comma, so one round more than there are bytes is enough.
unfoldable pub parse_features : List ℕ → List (List ℕ)
parse_features banner =
    let list = parse_property banner (codes "features=") in features_loop (suc (length list)) list

-- `<systemtype>::<serialno>::<banner>`
unfoldable pub parse_serial : List ℕ → List ℕ
parse_serial banner = elim (find (codes "::") banner) [
  | none ↦ []
  | some first ↦ elim (find_from (codes "::") banner (first + 2)) [
    | none ↦ []
    | some second ↦ take (second - first - 2) (drop (first + 2) banner)
  ]
]
