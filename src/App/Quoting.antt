-- ===== src/App/Quoting.antt =====
-- `shell_quote` against the quoting rules of the shell that reads the command.
use mathlib.Core.Option.{some-injective}
use adbcpp.Base.{
  ℕ, ◌≡◌, refl, sym, ap, ◌∙◌, append-nil, List, [], ◌∷◌, ◌++◌, append_assoc, Option, none, some,
  ◌==◌, ==_iff, if◌then◌else◌, Bool-cases, inl, inr,
}
use adbcpp.App.{quote_characters, shell_quote}

-- Where the shell is in a word: outside quotes, between single quotes, or behind a backslash.
pub data Mode : Type 0 where
  outside inside escaped : Mode

abbrev pub prepend : ℕ → Option (List ℕ × List ℕ) → Option (List ℕ × List ℕ)
prepend c none = none
prepend c (some (word, rest)) = some (c ∷ word, rest)

-- How `sh` reads one word off its input, by the quoting rules of POSIX (section 2.2): between single
-- quotes a character stands for itself; outside, a backslash takes the next character as it is, a
-- quote opens a quoted part and a blank ends the word. Any other character outside quotes may be
-- special and gives `none`, as does a quote that is never closed. The result is the word and what
-- follows it.
unfoldable pub read_word : Mode → List ℕ → Option (List ℕ × List ℕ)
read_word outside [] = some ([], [])
read_word inside [] = none
read_word escaped [] = none
read_word outside (c ∷ rest) =
    let quoted = read_word inside rest in
    let taken = read_word escaped rest in
    if c == b'\''
    then quoted
    else if c == b'\\'
    then taken
    else if c == b' '
    then some ([], c ∷ rest)
    else none
read_word inside (c ∷ rest) =
    let left = read_word outside rest in
    let more = prepend c (read_word inside rest) in if c == b'\'' then left else more
read_word escaped (c ∷ rest) = prepend c (read_word outside rest)

-- A quoted part with the text that is still to be read.
quoted_part :
    (text after word rest : List ℕ)
    → read_word inside after ≡ some (word, rest)
    → read_word inside (quote_characters text ++ after) ≡ some (text ++ word, rest)
unfolding read_word
quoted_part [] after word rest h = h
quoted_part (c ∷ text) after word rest h =
    let more = quoted_part text after word rest h in
    elim (Bool-cases (c == b'\'')) [
      | inl q ↦ rw (q, (==_iff c b'\'').0 q) (ap (prepend b'\'') more)
      | inr q ↦ rw q (rw q (ap (prepend c) more))
    ]

-- Whatever the text, quotes and blanks included, the shell reads its quoted form as one word, which
-- is the text, and goes on with what follows. Nothing of the text is special to the shell.
pub read_word-shell_quote :
    (text rest : List ℕ)
    → read_word outside (shell_quote text ++ b' ' ∷ rest) ≡ some (text, b' ' ∷ rest)
unfolding shell_quote read_word
read_word-shell_quote text rest =
    ap (read_word inside) (append_assoc (quote_characters text) (b'\'' ∷ []) (b' ' ∷ rest))
    ∙ quoted_part text (b'\'' ∷ b' ' ∷ rest) [] (b' ' ∷ rest) refl
    ∙ ap (λ t. some (t, b' ' ∷ rest)) (append-nil text)

-- So two texts with one quoted form are one text.
pub shell_quote_injective : (s t : List ℕ) → shell_quote s ≡ shell_quote t → s ≡ t
shell_quote_injective s t e =
    ap (λ (p : List ℕ × List ℕ). p.0)
      (some-injective (s, b' ' ∷ []) (t, b' ' ∷ [])
        (sym (read_word-shell_quote s [])
          ∙ ap (λ q. read_word outside (q ++ b' ' ∷ [])) e
          ∙ read_word-shell_quote t []))
