-- ===== src/Base/Text.antt =====
-- Strings as their bytes: equality, `find` and what the program does with the positions.
use Prim.Native.Nat.{ℕ, suc, ◌+◌}
use mathlib.Core.Path.{◌≡◌, refl}
use mathlib.Core.Logic.{◌↔◌}
use mathlib.Core.Bool.{Bool, true, false, ◌&&◌, ◌||◌}
use mathlib.Core.Option.{Option, none, some}
use mathlib.Core.List.{List, [], ◌∷◌}
use native.Mathlib.Omega.{arith}
use adbcpp.Base.Tests.{◌==◌, if◌then◌else◌}
use adbcpp.Base.Lists.{is_empty, drop}

unfoldable pub eq_bytes : List ℕ → List ℕ → Bool
eq_bytes [] [] = true
eq_bytes [] (b ∷ bs) = false
eq_bytes (a ∷ xs) [] = false
eq_bytes (a ∷ xs) (b ∷ bs) = a == b && eq_bytes xs bs

pub eq_bytes_iff : (xs ys : List ℕ) → (eq_bytes xs ys ≡ true) ↔ (xs ≡ ys)
unfolding eq_bytes
eq_bytes_iff [] [] = (λ _. refl, λ _. refl)
eq_bytes_iff [] (b ∷ bs) = (λ e. cc, λ e. cc)
eq_bytes_iff (a ∷ xs) [] = (λ e. cc, λ e. cc)
eq_bytes_iff (a ∷ xs) (b ∷ bs) =
    (λ e. ground (arith, eq_bytes_iff xs bs), λ e. ground (arith, eq_bytes_iff xs bs))

unfoldable pub starts_with : List ℕ → List ℕ → Bool
starts_with [] text = true
starts_with (k ∷ key) [] = false
starts_with (k ∷ key) (c ∷ text) = k == c && starts_with key text

-- `text.find(key)`: the first position of `key`; `none` is `npos`.
unfoldable pub find : List ℕ → List ℕ → Option ℕ
find key [] = if is_empty key then some 0 else none
find key (c ∷ text) =
    let later = find key text in
    if starts_with key (c ∷ text)
    then some 0
    else elim later [ none ↦ none | some i ↦ some (suc i) ]

-- `text.find(key, start)`
unfoldable pub find_from : List ℕ → List ℕ → ℕ → Option ℕ
find_from key text start = elim (find key (drop start text)) [
  | none ↦ none
  | some i ↦ some (start + i)
]

-- `std::find` over a sequence of strings.
unfoldable pub contains : List (List ℕ) → List ℕ → Bool
contains [] key = false
contains (x ∷ xs) key = eq_bytes x key || contains xs key
