-- ===== src/Connection/Features.antt =====
-- `parse_features` of src/connection.cpp on the list of a device.
use adbcpp.Base.{
  ℕ, zero, suc, ◌<◌, ◌≡◌, refl, ap, ◌∙◌, List, [], ◌∷◌, ◌++◌, arith, All, none, some, length,
  length-append, take, drop, take-append, drop-append_ge, codes,
}
use adbcpp.Base.Text.{find}
use adbcpp.Base.Search.{Lacks, find-lacking, find-none}
use adbcpp.Connection.Banner.{keep, features_loop}

-- The name of a feature: not empty, and without a comma.
abbrev pub IsCommaFree : List ℕ → Type 0
IsCommaFree name = Lacks b',' name

abbrev pub IsName : List ℕ → Type 0
IsName name = (0 < length name) × IsCommaFree name

-- The names with commas between them.
abbrev pub join : List (List ℕ) → List ℕ
join [] = []
join (name ∷ []) = name
join (name ∷ next ∷ rest) = name ++ b',' ∷ join (next ∷ rest)

keep-name : (name : List ℕ) (rest : List (List ℕ)) → 0 < length name → keep name rest ≡ name ∷ rest
keep-name [] rest h = absurd (omega arith)
keep-name (b ∷ bs) rest h = refl

loop_last :
    (fuel : ℕ) (list : List ℕ)
    → find (codes ",") list ≡ none
    → features_loop (suc fuel) list ≡ keep list []
unfolding features_loop
loop_last fuel list e = rw (features_loop, e)

loop_comma :
    (fuel comma : ℕ) (list : List ℕ)
    → find (codes ",") list ≡ some comma
    → features_loop (suc fuel) list
      ≡ keep (take comma list) (features_loop fuel (drop (suc comma) list))
unfolding features_loop
loop_comma fuel comma list e = rw (features_loop, e)

-- On the names of features with commas between them, the loop returns the names in order, with as
-- many rounds as there are bytes and one more.
pub features_loop-join :
    (fuel : ℕ) (names : List (List ℕ))
    → All IsName names
    → length (join names) < fuel
    → features_loop fuel (join names) ≡ names
features_loop-join zero names h f = absurd (omega arith)
features_loop-join (suc fuel) [] h f = loop_last fuel [] (find-none b',' [] [] tt)
features_loop-join (suc fuel) (name ∷ []) ((p, free), h) f =
    loop_last fuel name (find-none b',' [] name free) ∙ keep-name name [] p
features_loop-join (suc fuel) (name ∷ next ∷ rest) ((p, free), h) f =
    let later = join (next ∷ rest) in
    let all : List ℕ = name ++ b',' ∷ later in
    let more =
      features_loop-join fuel (next ∷ rest) h (omega (arith, length-append name (b',' ∷ later))) in
    let front : take (length name) all ≡ name =
      take-append (length name) name (b',' ∷ later) refl in
    let gone : drop (suc (length name)) all ≡ later =
      drop-append_ge (suc (length name)) 1 name (b',' ∷ later) (omega arith) in
    loop_comma fuel (length name) all (find-lacking b',' [] name later free)
    ∙ ap (λ t. keep t (features_loop fuel (drop (suc (length name)) all))) front
    ∙ keep-name name (features_loop fuel (drop (suc (length name)) all)) p
    ∙ ap (λ t. name ∷ features_loop fuel t) gone
    ∙ ap (λ t. name ∷ t) more
