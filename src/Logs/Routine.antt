-- ===== src/Logs/Routine.antt =====
-- `_is_routine_http` of genpi/routes/core.py: the search for `_ACCESS_LINE_RE` in a line. Of white space only
-- the ASCII characters count.
use generatorpi.Base.{
  ltb, if◌then◌else◌, ◌==◌, Bytes, codes, is_space, ℕ, ◌+◌, ◌-◌, ◌*◌, Bool, true, false, ◌&&◌,
  Option, none, some, List, [], ◌∷◌, ◌++◌, nat_key,
}
use generatorpi.Release.{is_digit}

-- What stands behind a fixed text at the start of another.
unfoldable pub after_text : Bytes → Bytes → Option Bytes
after_text [] s = some s
after_text (p ∷ ps) [] = none
after_text (p ∷ ps) (c ∷ s) = if p == c then after_text ps s else none

-- `(?:GET|POST|...)` and the space behind it; no method starts another.
unfoldable pub after_method : List Bytes → Bytes → Option Bytes
unfolding after_text
after_method [] s = none
after_method (m ∷ ms) s = elim (after_text (m ++ codes " ") s) [
  | some rest ↦ some rest
  | none ↦ after_method ms s
]

abbrev pub methods : List Bytes
methods =
    codes "GET"
    ∷ codes "POST"
    ∷ codes "PUT"
    ∷ codes "DELETE"
    ∷ codes "PATCH"
    ∷ codes "HEAD"
    ∷ codes "OPTIONS"
    ∷ []

-- `\S*`
unfoldable pub skip_word : Bytes → Bytes
skip_word [] = []
skip_word (c ∷ s) = let rest = skip_word s in if is_space c then c ∷ s else rest

-- `\S+`
unfoldable pub after_path : Bytes → Option Bytes
unfolding skip_word
after_path [] = none
after_path (c ∷ s) = if is_space c then none else some (skip_word s)

-- `(?:\s|$)`
abbrev pub at_end : Bytes → Bool
at_end [] = true
at_end (c ∷ s) = is_space c

-- ` ([0-9]{3})(?:\s|$)`
unfoldable pub status_at : Bytes → Option ℕ
status_at (s ∷ a ∷ b ∷ c ∷ rest) =
    if s == b' ' && is_digit a && is_digit b && is_digit c && at_end rest
    then some ((a - b'0') * 100 + (b - b'0') * 10 + (c - b'0'))
    else none
status_at _ = none

-- What the pattern says of the text behind the arrow.
unfoldable pub status_behind : Bytes → Option ℕ
unfolding after_method after_path status_at
status_behind r = elim (after_method methods r) [
  | none ↦ none
  | some p ↦ elim (after_path p) [ none ↦ none | some q ↦ status_at q ]
]

-- The match of the pattern at the start of a text, and its group.
unfoldable pub access_at : Bytes → Option ℕ
unfolding after_text status_behind
access_at s = elim (after_text (codes " -> ") s) [ none ↦ none | some r ↦ status_behind r ]

-- `search`: the leftmost match
unfoldable pub access_line : Bytes → Option ℕ
unfolding access_at
access_line [] = none
access_line (c ∷ s) =
    let rest = access_line s in elim (access_at (c ∷ s)) [ some n ↦ some n | none ↦ rest ]

unfoldable pub is_routine_http : Bytes → Bool
unfolding access_line
is_routine_http line = elim (access_line line) [ none ↦ false | some n ↦ ltb n 400 ]
