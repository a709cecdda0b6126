-- ===== src/Base/Search.antt =====
-- What `find` returns on a text that is known in parts.
use adbcpp.Base.{
  ℕ, zero, suc, ◌<◌, ◌≡◌, ◌≢◌, ◌⊎◌, inl, inr, refl, sym, List, [], ◌∷◌, ◌++◌, arith, true, false,
  All, none, some, length, drop, ◌==◌, ==_refl, Bool-cases, Option-cases,
}
use adbcpp.Base.Text.{find, starts_with}

-- None of the bytes is `k`.
abbrev pub Lacks : ℕ → List ℕ → Type 0
Lacks k bytes = All (λ b. b ≢ k) bytes

differs : (k b : ℕ) → b ≢ k → (k == b) ≡ false
differs k b h = ground arith

pub starts_with-append : (key rest : List ℕ) → starts_with key (key ++ rest) ≡ true
unfolding starts_with
starts_with-append [] rest = refl
starts_with-append (k ∷ key) rest = rw (==_refl k, starts_with-append key rest)

find_here :
    (key text : List ℕ) (b : ℕ) → starts_with key (b ∷ text) ≡ true → find key (b ∷ text) ≡ some 0
unfolding find
find_here key text b h = rw h

-- A key is found behind bytes that lack its first one,
pub find-lacking :
    (k : ℕ) (key front rest : List ℕ)
    → Lacks k front
    → find (k ∷ key) (front ++ k ∷ (key ++ rest)) ≡ some (length front)
unfolding find starts_with
find-lacking k key [] rest h =
    find_here (k ∷ key) (key ++ rest) k (starts_with-append (k ∷ key) rest)
find-lacking k key (b ∷ bs) rest (hb, h) = rw (differs k b hb, find-lacking k key bs rest h)

-- and is not found in them.
pub find-none : (k : ℕ) (key front : List ℕ) → Lacks k front → find (k ∷ key) front ≡ none
unfolding find starts_with
find-none k key [] h = refl
find-none k key (b ∷ bs) (hb, h) = rw (differs k b hb, find-none k key bs h)

-- A key that starts in `front` ends there, or goes on behind it.
starts_with_split :
    (key front rest : List ℕ)
    → starts_with key (front ++ rest) ≡ true
    → (starts_with key front ≡ true)
      ⊎ ((length front < length key) × (starts_with (drop (length front) key) rest ≡ true))
unfolding starts_with
starts_with_split [] front rest h = inl refl
starts_with_split (k ∷ key) [] rest h = inr (omega arith, h)
starts_with_split (k ∷ key) (b ∷ bs) rest h = elim (Bool-cases (k == b)) [
  | inr e ↦ absurd (cc (rw e at h))
  | inl e ↦ elim (starts_with_split key bs rest (rw e at h)) [
    | inl s ↦ inl (rw (e, s))
    | inr (p, s) ↦ inr (omega arith, s)
  ]
]

-- A key no part of which stands behind another of its beginnings.
abbrev pub IsBorderless : List ℕ → Type 0
IsBorderless key =
    (n : ℕ) (rest : List ℕ)
    → 0 < n
    → n < length key
    → starts_with (drop n key) (key ++ rest) ≡ false

other_byte :
    (k m : ℕ) (bytes rest : List ℕ)
    → Lacks k bytes
    → m < length bytes
    → starts_with (drop m bytes) (k ∷ rest) ≡ false
unfolding starts_with
other_byte k m [] rest free r = absurd (omega arith)
other_byte k zero (b ∷ bs) rest (hb, free) r = rw (differs b k (λ e. hb (sym e)))
other_byte k (suc m) (b ∷ bs) rest (hb, free) r = other_byte k m bs rest free (omega arith)

-- A key that begins with a byte which it has nowhere else is one.
pub IsBorderless-Lacks : (k : ℕ) (key : List ℕ) → Lacks k key → IsBorderless (k ∷ key)
IsBorderless-Lacks k key h zero rest p q = absurd (omega arith)
IsBorderless-Lacks k key h (suc n) rest p q = other_byte k n key (key ++ rest) h (omega arith)

find_later :
    (key text : List ℕ) (b : ℕ)
    → starts_with key (b ∷ text) ≡ false
    → find key (b ∷ text) ≡ none
    → find key text ≡ none
unfolding find
find_later key text b s h = elim (Option-cases (find key text)) [
  | inl e ↦ e
  | inr (i, e) ↦ absurd (cc (rw (s, e) at h))
]

not_before :
    (k : ℕ) (key : List ℕ) (b : ℕ) (bs rest : List ℕ)
    → IsBorderless (k ∷ key)
    → starts_with (k ∷ key) (b ∷ bs) ≡ false
    → starts_with (k ∷ key) (b ∷ (bs ++ k ∷ (key ++ rest))) ≡ false
not_before k key b bs rest w s =
    elim (Bool-cases (starts_with (k ∷ key) (b ∷ (bs ++ k ∷ (key ++ rest))))) [
      | inr e ↦ e
      | inl e ↦ elim (starts_with_split (k ∷ key) (b ∷ bs) (k ∷ (key ++ rest)) e) [
        | inl t ↦ absurd (cc)
        | inr (q, t) ↦ let n = w (suc (length bs)) rest (omega arith) q in absurd (cc)
      ]
    ]

-- Such a key is found behind a text in which it is not.
pub find-behind :
    (key front rest : List ℕ)
    → IsBorderless key
    → 0 < length key
    → find key front ≡ none
    → find key (front ++ (key ++ rest)) ≡ some (length front)
unfolding find
find-behind [] front rest w p h = absurd (omega arith)
find-behind (k ∷ key) [] rest w p h =
    find_here (k ∷ key) (key ++ rest) k (starts_with-append (k ∷ key) rest)
find-behind (k ∷ key) (b ∷ bs) rest w p h = elim (Bool-cases (starts_with (k ∷ key) (b ∷ bs))) [
  | inl s ↦ absurd (cc (rw s at h))
  | inr s ↦ rw (
    not_before k key b bs rest w s,
    find-behind (k ∷ key) bs rest w p (find_later (k ∷ key) bs b s h),
  )
]
