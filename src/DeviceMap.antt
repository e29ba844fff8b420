-- ===== src/DeviceMap.antt =====
-- dpcs/internal/devicemap/devicemap.go: the file that gives the devices their targets. Texts are bytes
-- in UTF-8. A Scanner's dropping of a carriage return is left to TrimSpace.
pub mod RoundTrip
mod Tests
use iml.Common.{
  ℕ, zero, suc, length, ◌+◌, ◌-◌, ◌*◌, ◌^◌, Bool, true, false, not, ◌&&◌, ◌||◌, ◌==◌, Option, none,
  some, List, [], ◌∷◌, ltb, leb, if◌then◌else◌, ℕ_discrete,
}
use iml.Common.Maps.{Map, empty, insert}
use iml.Common.Results.{Result, ok, err}
use iml.Common.Texts.{Text}

-- The numbers are those of the lines, or of the errors of the system.
pub data MapError : Type 0 where
  not_exist : MapError
  open_error read_error : ℕ → MapError
  line_too_long malformed_line empty_name invalid_id duplicate_id : MapError

-- The ASCII characters that Unicode calls spaces.
abbrev pub is_space : ℕ → Bool
is_space c = leb 9 c && leb c 13 || c == 32

-- The second byte of U+0085 and U+00A0; the last one of U+2000 to U+200A, U+2028, U+2029, U+202F.
abbrev pub ends_latin : ℕ → Bool
ends_latin d = d == 133 || d == 160

abbrev pub ends_general : ℕ → Bool
ends_general e = leb 128 e && leb e 138 || e == 168 || e == 169 || e == 175

-- The last two bytes of the spaces of three bytes, the others of which are U+1680, U+205F, U+3000.
abbrev pub is_space_of_three : ℕ → ℕ → ℕ → Bool
is_space_of_three c d e =
    (c == 226 && d == 128 && ends_general e)
    || (c == 225 && d == 154 && e == 128)
    || (c == 226 && d == 129 && e == 159)
    || (c == 227 && d == 128 && e == 128)

-- With how many bytes a text that starts with the byte `c` goes on with the space that it starts with,
-- or none if it starts with none.
unfoldable pub space_rest : ℕ → Text → Option ℕ
space_rest c cs = if is_space c then some 0 else elim cs [
  | [] ↦ none
  | d ∷ ds ↦
      if c == 194 && ends_latin d
      then some 1
      else elim ds [ [] ↦ none | e ∷ es ↦ if is_space_of_three c d e then some 2 else none ]
]

abbrev pub is_empty : Text → Bool
is_empty [] = true
is_empty (c ∷ cs) = false

-- The text after a number of bytes of a space, and the spaces that follow.
unfoldable pub trim_from : ℕ → Text → Text
unfolding space_rest
trim_from n [] = []
trim_from (suc n) (c ∷ cs) = trim_from n cs
trim_from zero (c ∷ cs) = elim (space_rest c cs) [ none ↦ c ∷ cs | some n ↦ trim_from n cs ]

unfoldable pub trim_left : Text → Text
unfolding trim_from
trim_left s = trim_from 0 s

-- The text ends where only spaces follow.
unfoldable pub trim_right : Text → Text
unfolding trim_left
trim_right [] = []
trim_right (c ∷ cs) =
    let rest = trim_right cs in if is_empty (trim_left (c ∷ cs)) then [] else c ∷ rest

unfoldable pub trim_space : Text → Text
unfolding trim_left trim_right
trim_space s = trim_right (trim_left s)

abbrev pub add_first : ℕ → List Text → List Text
add_first c [] = (c ∷ []) ∷ []
add_first c (l ∷ ls) = (c ∷ l) ∷ ls

-- The lines of a Scanner: what follows the last newline is a line unless it is empty.
unfoldable pub scan_lines : Text → List Text
scan_lines [] = []
scan_lines (c ∷ cs) = let rest = scan_lines cs in if c == 10 then [] ∷ rest else add_first c rest

-- A Scanner gives no line that does not fit its buffer of 64 KB, and stops there.
abbrev pub max_scan_token_size : ℕ
max_scan_token_size = 64 * 1024

unfoldable pub short_lines : List Text → List Text
short_lines [] = []
short_lines (l ∷ ls) =
    let rest = short_lines ls in if ltb (length l) max_scan_token_size then l ∷ rest else []

unfoldable pub has_long_line : List Text → Bool
has_long_line [] = false
has_long_line (l ∷ ls) = not (ltb (length l) max_scan_token_size) || has_long_line ls

abbrev pub before : ℕ → Option (Text × Text) → Option (Text × Text)
before c none = none
before c (some (left, right)) = some (c ∷ left, right)

-- `SplitN(line, "=", 2)`, or none if there is one part only.
unfoldable pub split_equals : Text → Option (Text × Text)
split_equals [] = none
split_equals (c ∷ cs) =
    let rest = split_equals cs in if c == 61 then some ([], cs) else before c rest

abbrev pub is_digit : ℕ → Bool
is_digit c = leb 48 c && leb c 57

-- `ParseUint(s, 10, 64)`, with the number read so far.
unfoldable pub parse_digits : ℕ → Text → Option ℕ
parse_digits n [] = some n
parse_digits n (c ∷ cs) =
    let m = n * 10 + (c - 48) in
    let rest = parse_digits m cs in
    if is_digit c then if ltb m (2 ^ 64) then rest else none else none

unfoldable pub parse_uint : Text → Option ℕ
unfolding parse_digits
parse_uint s = if is_empty s then none else parse_digits 0 s

abbrev pub starts_with_hash : Text → Bool
starts_with_hash [] = false
starts_with_hash (c ∷ cs) = c == 35

abbrev pub with_id : Map ℕ Text → Text → Option ℕ → Result MapError (Map ℕ Text)
with_id result name none = err invalid_id
with_id result name (some id) = elim (result id) [
  | some previous ↦ err duplicate_id
  | none ↦ ok (insert ℕ_discrete id name result)
]

abbrev pub with_parts : Map ℕ Text → Option (Text × Text) → Result MapError (Map ℕ Text)
with_parts result none = err malformed_line
with_parts result (some (left, right)) =
    if is_empty (trim_space right)
    then err empty_name
    else with_id result (trim_space right) (parse_uint (trim_space left))

-- One pass of the loop.
unfoldable pub parse_line : Map ℕ Text → Text → Result MapError (Map ℕ Text)
unfolding trim_space split_equals parse_uint
parse_line result text =
    let line = trim_space text in
    if is_empty line || starts_with_hash line
    then ok result
    else with_parts result (split_equals line)

abbrev pub then_lines :
    Result MapError (Map ℕ Text)
    → (Map ℕ Text → Result MapError (Map ℕ Text))
    → Result MapError (Map ℕ Text)
then_lines (err e) rest = err e
then_lines (ok result) rest = rest result

unfoldable pub parse_lines : List Text → Map ℕ Text → Result MapError (Map ℕ Text)
unfolding parse_line
parse_lines [] result = ok result
parse_lines (l ∷ ls) result = then_lines (parse_line result l) (parse_lines ls)

-- A file with its text and the error that ends the reading of it.
pub record File : Type 0 where
  pub text : Text
  pub read_fails : Option ℕ

-- `scanner.Err`
abbrev pub end_read : Bool → Option ℕ → Map ℕ Text → Result MapError (Map ℕ Text)
end_read true error result = err line_too_long
end_read false none result = ok result
end_read false (some e) result = err (read_error e)

unfoldable pub parse : Result MapError File → Result MapError (Map ℕ Text)
unfolding scan_lines short_lines has_long_line parse_lines
parse (err e) = err e
parse (ok file) =
    let lines = scan_lines file.text in
    then_lines (parse_lines (short_lines lines) empty)
      (end_read (has_long_line lines) file.read_fails)

abbrev pub or_empty : Result MapError (Map ℕ Text) → Result MapError (Map ℕ Text)
or_empty (err not_exist) = ok empty
or_empty r = r

unfoldable pub parse_if_exists : Result MapError File → Result MapError (Map ℕ Text)
unfolding parse
parse_if_exists file = or_empty (parse file)
