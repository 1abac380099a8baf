-- ===== src/Base/Text.antt =====
-- `str` as the list of its Unicode scalar values, with what the code uses of Rust's `str` and
-- `String`: equality, ASCII case, trimming, splitting, joining and replacing.
pub mod Laws
pub mod Prefixes
use Prim.Native.Nat.{ℕ, zero, suc, ◌+◌, ◌-◌, ◌/◌, ◌%◌}
use Prim.Native.Char.{code}
use Prim.Native.String.{String}
use mathlib.Core.Bool.{Bool, true, false, not, ◌&&◌, ◌||◌}
use mathlib.Core.Option.{Option, none, some}
use mathlib.Core.List.{List, [], ◌∷◌, ◌++◌, map, reverse}
use yj_sandbox.Base.Tests.{ltb, leb, ◌==◌, if◌then◌else◌}
use yj_sandbox.Base.Lists.{any}

abbrev pub Text : Type 0
Text = List ℕ

-- A literal.
abbrev pub codes : String → Text
codes String.[] = []
codes (String.◌∷◌ c s) = code c ∷ codes s

unfoldable pub text_eq : Text → Text → Bool
text_eq [] [] = true
text_eq [] (y ∷ ys) = false
text_eq (x ∷ xs) [] = false
text_eq (x ∷ xs) (y ∷ ys) = x == y && text_eq xs ys

-- `slice.contains(&text)`
unfoldable pub contains_text : List Text → Text → Bool
unfolding text_eq
contains_text [] t = false
contains_text (x ∷ xs) t = text_eq t x || contains_text xs t

unfoldable pub to_lower : ℕ → ℕ
to_lower c = if leb b'A' c && leb c b'Z' then c + 32 else c

unfoldable pub to_upper : ℕ → ℕ
to_upper c = if leb b'a' c && leb c b'z' then c - 32 else c

unfoldable pub to_ascii_lowercase : Text → Text
unfolding to_lower
to_ascii_lowercase = map to_lower

unfoldable pub to_ascii_uppercase : Text → Text
unfolding to_upper
to_ascii_uppercase = map to_upper

unfoldable pub eq_ignore_ascii_case : Text → Text → Bool
unfolding to_ascii_lowercase text_eq
eq_ignore_ascii_case a b = text_eq (to_ascii_lowercase a) (to_ascii_lowercase b)

unfoldable pub is_ascii_alphanumeric : ℕ → Bool
is_ascii_alphanumeric c =
    (leb b'0' c && leb c b'9') || (leb b'A' c && leb c b'Z') || (leb b'a' c && leb c b'z')

-- The characters with the property White_Space.
unfoldable pub is_whitespace : ℕ → Bool
is_whitespace c =
    (leb 9 c && leb c 13)
    || c == 32
    || c == 0x85
    || c == 0xa0
    || c == 0x1680
    || (leb 0x2000 c && leb c 0x200a)
    || c == 0x2028
    || c == 0x2029
    || c == 0x202f
    || c == 0x205f
    || c == 0x3000

unfoldable pub trim_start_while : (ℕ → Bool) → Text → Text
trim_start_while p [] = []
trim_start_while p (c ∷ s) = if p c then trim_start_while p s else c ∷ s

unfoldable pub trim_end_while : (ℕ → Bool) → Text → Text
unfolding trim_start_while
trim_end_while p s = reverse (trim_start_while p (reverse s))

-- `trim`, and `trim_matches` with a test of one's own
unfoldable pub trim_matches : (ℕ → Bool) → Text → Text
unfolding trim_start_while trim_end_while
trim_matches p s = trim_end_while p (trim_start_while p s)

unfoldable pub trim : Text → Text
unfolding trim_matches is_whitespace
trim s = trim_matches is_whitespace s

-- `replace` of one character by another
unfoldable pub replace_char : ℕ → ℕ → Text → Text
replace_char a b = map (λ c. if c == a then b else c)

unfoldable pub strip_prefix : Text → Text → Option Text
strip_prefix [] s = some s
strip_prefix (p ∷ ps) [] = none
strip_prefix (p ∷ ps) (c ∷ s) = if p == c then strip_prefix ps s else none

unfoldable pub starts_with : Text → Text → Bool
starts_with s [] = true
starts_with [] (p ∷ ps) = false
starts_with (c ∷ s) (p ∷ ps) = c == p && starts_with s ps

-- What stands before and after the first `sep`.
unfoldable pub split_once : ℕ → Text → Option (Text × Text)
split_once sep [] = none
split_once sep (c ∷ s) =
    if c == sep
    then some ([], s)
    else elim (split_once sep s) [ none ↦ none | some (a, b) ↦ some (c ∷ a, b) ]

abbrev pub cons_to_head : ℕ → List Text → List Text
cons_to_head c [] = (c ∷ []) ∷ []
cons_to_head c (w ∷ ws) = (c ∷ w) ∷ ws

-- `split(sep)`: never empty
unfoldable pub split : ℕ → Text → List Text
split sep [] = [] ∷ []
split sep (c ∷ s) = let rest = split sep s in if c == sep then [] ∷ rest else cons_to_head c rest

-- `join(sep)`
unfoldable pub join_with : Text → List Text → Text
join_with sep [] = []
join_with sep (w ∷ []) = w
join_with sep (w ∷ v ∷ ws) = w ++ (sep ++ join_with sep (v ∷ ws))

unfoldable pub texts_eq : List Text → List Text → Bool
unfolding text_eq
texts_eq [] [] = true
texts_eq [] (y ∷ ys) = false
texts_eq (x ∷ xs) [] = false
texts_eq (x ∷ xs) (y ∷ ys) = text_eq x y && texts_eq xs ys

unfoldable pub texts_start_with : List Text → List Text → Bool
unfolding text_eq
texts_start_with xs [] = true
texts_start_with [] (p ∷ ps) = false
texts_start_with (x ∷ xs) (p ∷ ps) = text_eq x p && texts_start_with xs ps

-- a line without the carriage return that its line feed followed
abbrev pub strip_carriage_return : Text → Text
strip_carriage_return [] = []
strip_carriage_return (c ∷ []) = if c == 13 then [] else c ∷ []
strip_carriage_return (c ∷ d ∷ s) = c ∷ strip_carriage_return (d ∷ s)

abbrev pub last_line : Text → List Text
last_line [] = []
last_line (c ∷ s) = (c ∷ s) ∷ []

unfoldable pub lines_from : Text → Text → List Text
lines_from line [] = last_line line
lines_from line (c ∷ s) = elim (c == 10) [
  | true ↦ strip_carriage_return line ∷ lines_from [] s
  | false ↦ lines_from (line ++ c ∷ []) s
]

-- `lines`
unfoldable pub lines : Text → List Text
unfolding lines_from
lines s = lines_from [] s

unfoldable pub digits : ℕ → ℕ → Text
digits zero n = []
digits (suc more) n =
    let before = digits more (n / 10) in
    if ltb n 10 then (48 + n) ∷ [] else before ++ (48 + n % 10) ∷ []

-- A `u32` in decimal: ten digits are enough for it.
abbrev pub decimal_u32 : ℕ → Text
decimal_u32 n = digits 10 n

unfoldable pub ends_with : Text → Text → Bool
unfolding starts_with
ends_with s suffix = starts_with (reverse s) (reverse suffix)
