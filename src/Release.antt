-- ===== src/Release.antt =====
-- The version checks of genpi/updater.py: `_version_tuple`, `_run_update_check`, and the gate that the
-- `incompatible_versions` of a manifest put before a web update. A text is the list of its characters;
-- of these, only the ASCII ones count as white space, digits or letters.
pub mod Order
pub mod Watch
mod Tests
pub mod Confined
pub mod Manifest
pub mod Gate
pub mod Blocked
use generatorpi.Base.{
  leb, if◌then◌else◌, ◌==◌, Dict, lookup, insert, ℤ, pos, negsuc, leb_ℤ, Bytes, strip, split,
  sorted, last, distinct, ℕ, ◌+◌, ◌-◌, ◌*◌, Bool, true, false, not, ◌&&◌, ◌||◌, Option, none, some,
  List, [], ◌∷◌, map, bytes_key, nat_key,
}

abbrev pub is_digit : ℕ → Bool
is_digit c = leb b'0' c && leb c b'9'

-- The digits of a number, with single underscores between them; `after` tells that the character before
-- was a digit.
unfoldable pub digits : (after : Bool) → ℕ → Bytes → Option ℕ
digits after n [] = if after then some n else none
digits after n (c ∷ s) = elim (is_digit c) [
  | true ↦ digits true (n * 10 + (c - b'0')) s
  | false ↦ elim (c == b'_' && after) [ true ↦ digits false n s | false ↦ none ]
]

unfoldable pub negated : ℕ → ℤ
negated n = if n == 0 then pos 0 else negsuc (n - 1)

abbrev pub with_sign : (ℕ → ℤ) → Option ℕ → Option ℤ
with_sign f none = none
with_sign f (some n) = some (f n)

unfoldable pub signed : Bytes → Option ℤ
unfolding digits negated
signed [] = none
signed (c ∷ s) =
    if c == b'-'
    then with_sign negated (digits false 0 s)
    else with_sign pos (if c == b'+' then digits false 0 s else digits false 0 (c ∷ s))

-- `int(part)`, and 0 where it raises
unfoldable pub part_number : Bytes → ℤ
unfolding signed
part_number part = elim (signed (strip part)) [ none ↦ pos 0 | some n ↦ n ]

unfoldable pub version_tuple : Bytes → List ℤ
unfolding part_number
version_tuple v = map part_number (split b'.' v)

abbrev pub same_ℤ : ℤ → ℤ → Bool
same_ℤ a b = leb_ℤ a b && leb_ℤ b a

-- `a < b` on tuples: the first difference decides, then the length.
unfoldable pub before : List ℤ → List ℤ → Bool
before xs [] = false
before [] (y ∷ ys) = true
before (x ∷ xs) (y ∷ ys) = let rest = before xs ys in if same_ℤ x y then rest else leb_ℤ x y

unfoldable pub is_older : Bytes → Bytes → Bool
unfolding before version_tuple
is_older v w = before (version_tuple v) (version_tuple w)

-- What the update check knows: the published version, `none` if it could not be fetched.
pub record CheckCache : Type 0 where
  pub latest : Option Bytes
  pub update_available : Bool
  pub checked_at : Option ℕ

unfoldable pub is_newer : Bytes → Option Bytes → Bool
unfolding is_older
is_newer installed none = false
is_newer installed (some latest) = is_older installed latest

-- `fetched` is what `_fetch_latest_version` returned. The answer and the cache agree.
unfoldable pub run_update_check :
    (installed : Bytes) (fetched : Option Bytes) (now : ℕ) → CheckCache
unfolding is_newer
run_update_check installed fetched now = record {
  latest = fetched;
  update_available = is_newer installed fetched;
  checked_at = some now;
}

-- `incompatible_versions` of a manifest, with its keys and values as texts.
pub data Incompatible : Type 0 where
  one_version : Bytes → Incompatible
  versions : List Bytes → Incompatible
  reasons : Dict Bytes Bytes → Incompatible
  absent : Incompatible

unfoldable pub without_reasons : List Bytes → Dict Bytes Bytes → Dict Bytes Bytes
without_reasons [] d = d
without_reasons (v ∷ vs) d = without_reasons vs (insert v [] d)

unfoldable pub gates_of : Incompatible → Dict Bytes Bytes
unfolding without_reasons
gates_of (one_version v) = (v, []) ∷ []
gates_of (versions vs) = without_reasons vs []
gates_of (reasons d) = d
gates_of absent = []

unfoldable pub without_v : Bytes → Bytes
without_v [] = []
without_v (c ∷ s) = if c == b'v' || c == b'V' then s else c ∷ s

unfoldable pub gate_ver : Bytes → Bytes
unfolding without_v
gate_ver g = without_v (strip g)

-- `installed < g <= latest`, and `g` is not empty
unfoldable pub is_crossed : (installed latest : Bytes) → Bytes → Bool
unfolding is_older
is_crossed installed latest g = not (g == []) && is_older installed g && not (is_older latest g)

unfoldable pub crossed : (installed latest : Bytes) → Dict Bytes Bytes → List Bytes
unfolding is_crossed gate_ver
crossed installed latest [] = []
crossed installed latest ((k, v) ∷ gates) =
    let rest = crossed installed latest gates in
    if is_crossed installed latest (gate_ver k) then gate_ver k ∷ rest else rest

-- `_blocking`. A set gives its elements in an order of its own, `iterate`.
unfoldable pub blocking :
    (List Bytes → List Bytes) → (installed latest : Bytes) → Incompatible → List Bytes
unfolding crossed gates_of is_older
blocking iterate installed latest i =
    sorted is_older (iterate (distinct (crossed installed latest (gates_of i))))

unfoldable pub messages : Dict Bytes Bytes → Dict Bytes Bytes → Dict Bytes Bytes
unfolding gate_ver
messages [] d = d
messages ((k, v) ∷ gates) d = messages gates (insert (gate_ver k) (strip v) d)

unfoldable pub note_of : Option Bytes → List Bytes
note_of none = []
note_of (some note) = if note == [] then [] else note ∷ []

unfoldable pub notes : (blocked : List Bytes) → Incompatible → List Bytes
unfolding messages gates_of note_of
notes blocked i = elim (last blocked) [
  | none ↦ []
  | some g ↦ note_of (lookup g (messages (gates_of i) []))
]
