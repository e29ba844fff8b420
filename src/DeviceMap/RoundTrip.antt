-- ===== src/DeviceMap/RoundTrip.antt =====
-- devicemap.go: what is written in the format is read back.
use mathlib.Core.Bool.{true≢false}
use iml.Common.{
  ℕ, length, ◌||◌, ◌+◌, ◌-◌, ◌*◌, ◌^◌, ◌≤◌, ◌<◌, ltb, ◌≡◌, refl, ap, ◌∙◌, Bool, true, false, not,
  ◌&&◌, ◌==◌, none, some, List, [], ◌∷◌, ◌++◌, ℕ_discrete, arith,
}
use iml.Common.Maps.{Map, empty, insert}
use iml.Common.Results.{ok}
use iml.Common.Texts.{Text}
use iml.DeviceMap.{
  space_rest, trim_from, max_scan_token_size, short_lines, has_long_line, is_empty, trim_left,
  trim_right, trim_space, scan_lines, split_equals, is_digit, parse_digits, parse_uint,
  starts_with_hash, with_id, parse_line, parse_lines, parse,
}

-- A device with the digits of its number and the name of its target.
pub record Entry : Type 0 where
  pub id : ℕ
  pub digits : Text
  pub name : Text

abbrev pub lacks_newline : Text → Bool
lacks_newline [] = true
lacks_newline (c ∷ cs) = not (c == 10) && lacks_newline cs

-- The number that digits write in base ten, after `n`.
abbrev pub value : ℕ → Text → ℕ
value n [] = n
value n (c ∷ cs) = value (n * 10 + (c - 48)) cs

abbrev pub all_digits : Text → Bool
all_digits [] = true
all_digits (c ∷ cs) = is_digit c && all_digits cs

pub record IsEntry (e : Entry) : Type 0 where
  pub some_digits : is_empty e.digits ≡ false
  pub only_digits : all_digits e.digits ≡ true
  pub number : value 0 e.digits ≡ e.id
  pub in_range : e.id < 2 ^ 64
  pub left_trimmed : trim_left e.name ≡ e.name
  pub right_trimmed : trim_right e.name ≡ e.name
  pub short : length e.digits + length e.name + 1 < max_scan_token_size
  pub named : is_empty e.name ≡ false
  pub one_line : lacks_newline e.name ≡ true

abbrev pub print_line : Entry → Text
print_line e = e.digits ++ 61 ∷ e.name

unfoldable pub print : List Entry → Text
print [] = []
print (e ∷ es) = print_line e ++ 10 ∷ print es

-- The entries in turn have numbers that the map lacks.
abbrev pub AllNew : Map ℕ Text → List Entry → Type 0
AllNew result [] = Unit {0}
AllNew result (e ∷ es) = (result e.id ≡ none) × AllNew (insert ℕ_discrete e.id e.name result) es

abbrev pub AllEntries : List Entry → Type 0
AllEntries [] = Unit {0}
AllEntries (e ∷ es) = IsEntry e × AllEntries es

unfoldable pub insert_all : List Entry → Map ℕ Text → Map ℕ Text
insert_all [] result = result
insert_all (e ∷ es) result = insert_all es (insert ℕ_discrete e.id e.name result)

value-le : (n : ℕ) (s : Text) → n ≤ value n s
value-le n [] = omega arith
value-le n (c ∷ cs) = omega (arith, value-le (n * 10 + (c - 48)) cs)

parse_digits-value :
    (n : ℕ) (s : Text)
    → all_digits s ≡ true
    → value n s < 2 ^ 64
    → parse_digits n s ≡ some (value n s)
unfolding parse_digits
parse_digits-value n [] h k = refl
parse_digits-value n (c ∷ cs) h k =
    let m : ℕ = n * 10 + (c - 48) in
    let rest = parse_digits-value m cs (ground arith) k in
    let digit : is_digit c ≡ true = ground arith in
    let small : ltb (n * 10 + (c - 48)) (2 ^ 64) ≡ true = ground (arith, value-le m cs, k) in
    rw (digit, small) rest

split_digits :
    (s name : Text) → all_digits s ≡ true → split_equals (s ++ 61 ∷ name) ≡ some (s, name)
unfolding split_equals
split_digits [] name h = refl
split_digits (c ∷ cs) name h =
    let rest = split_digits cs name (ground arith) in
    let other : (c == 61) ≡ false = ground arith in rw (other, rest) refl

scan-lines :
    (l rest : Text) → lacks_newline l ≡ true → scan_lines (l ++ 10 ∷ rest) ≡ l ∷ scan_lines rest
unfolding scan_lines
scan-lines [] rest h = refl
scan-lines (c ∷ l) rest h =
    let more = scan-lines l rest (ground arith) in
    let other : (c == 10) ≡ false = ground arith in rw (other, more) refl

-- The bytes that print a number and `=` are no spaces, and start none.
abbrev is_solid : ℕ → Bool
is_solid c = is_digit c || c == 61

solid-space_rest : (c : ℕ) (cs : Text) → is_solid c ≡ true → space_rest c cs ≡ none
unfolding space_rest
solid-space_rest c [] h = ground arith
solid-space_rest c (d ∷ []) h = ground arith
solid-space_rest c (d ∷ e ∷ es) h = ground arith

trim_left-solid : (c : ℕ) (cs : Text) → is_solid c ≡ true → trim_left (c ∷ cs) ≡ c ∷ cs
unfolding trim_left trim_from
trim_left-solid c cs h = rw (solid-space_rest c cs h, trim_left, trim_from) refl

trim_right-solid : (c : ℕ) (cs : Text) → is_solid c ≡ true → trim_right (c ∷ cs) ≡ c ∷ trim_right cs
unfolding trim_right
trim_right-solid c cs h = rw (trim_left-solid c cs h) refl

trim_left-digits :
    (s : Text) → all_digits s ≡ true → (t : Text) → is_empty s ≡ false → trim_left (s ++ t) ≡ s ++ t
trim_left-digits [] h t e = absurd (true≢false e)
trim_left-digits (c ∷ s) h t e = trim_left-solid c (s ++ t) (ground arith)

append-is_empty : (s t : Text) → is_empty t ≡ false → is_empty (s ++ t) ≡ false
append-is_empty [] t e = e
append-is_empty (c ∷ s) t e = refl

trim_right-append :
    (s t : Text) → all_digits s ≡ true → trim_right t ≡ t → trim_right (s ++ t) ≡ s ++ t
trim_right-append [] t h e = e
trim_right-append (c ∷ s) t h e =
    trim_right-solid c (s ++ t) (ground arith)
    ∙ ap (λ (r : Text). c ∷ r) (trim_right-append s t (ground arith) e)

trim_right-digits : (s : Text) → all_digits s ≡ true → trim_right s ≡ s
unfolding trim_right
trim_right-digits [] h = refl
trim_right-digits (c ∷ s) h =
    trim_right-solid c s (ground arith)
    ∙ ap (λ (r : Text). c ∷ r) (trim_right-digits s (ground arith))

trim_left-all_digits : (s : Text) → all_digits s ≡ true → trim_left s ≡ s
unfolding trim_left trim_from
trim_left-all_digits [] h = refl
trim_left-all_digits (c ∷ s) h = trim_left-solid c s (ground arith)

no_hash :
    (s t : Text) → all_digits s ≡ true → is_empty s ≡ false → starts_with_hash (s ++ t) ≡ false
no_hash [] t h e = absurd (true≢false e)
no_hash (c ∷ s) t h e = ground arith

one_line :
    (s t : Text) → all_digits s ≡ true → lacks_newline t ≡ true → lacks_newline (s ++ 61 ∷ t) ≡ true
one_line [] t h k = k
one_line (c ∷ s) t h k =
    let rest = one_line s t (ground arith) k in
    let other : (c == 10) ≡ false = ground arith in rw other rest

module _ (e : Entry) (w : IsEntry e) where
  digits-read : parse_uint e.digits ≡ some e.id
  unfolding parse_uint
  digits-read =
      let below : value 0 e.digits < 2 ^ 64 = omega (arith, w.number, w.in_range) in
      rw w.some_digits (parse_digits-value 0 e.digits w.only_digits below ∙ ap some w.number)

  print_line-trimmed : trim_space (print_line e) ≡ print_line e
  unfolding trim_space
  print_line-trimmed =
      let name : trim_right (61 ∷ e.name) ≡ 61 ∷ e.name =
        trim_right-solid 61 e.name refl ∙ ap (λ (r : Text). 61 ∷ r) w.right_trimmed in
      rw (trim_left-digits e.digits w.only_digits (61 ∷ e.name) w.some_digits)
        (trim_right-append e.digits (61 ∷ e.name) w.only_digits name)

  name-trimmed : trim_space e.name ≡ e.name
  unfolding trim_space
  name-trimmed = rw w.left_trimmed w.right_trimmed

  digits-trimmed : trim_space e.digits ≡ e.digits
  unfolding trim_space
  digits-trimmed =
      rw (trim_left-all_digits e.digits w.only_digits) (trim_right-digits e.digits w.only_digits)

  parse_line-print_line :
      (result : Map ℕ Text)
      → result e.id ≡ none
      → parse_line result (print_line e) ≡ ok (insert ℕ_discrete e.id e.name result)
  unfolding parse_line
  parse_line-print_line result fresh =
      let d = w.only_digits in
      rw
        (
          print_line-trimmed,
          append-is_empty e.digits (61 ∷ e.name) refl,
          no_hash e.digits (61 ∷ e.name) d w.some_digits,
        )
        (rw (split_digits e.digits e.name d) (
          rw (name-trimmed, w.named) (rw (digits-trimmed, digits-read) (rw (fresh, with_id) refl))))

print-scan_lines :
    (e : Entry) (w : IsEntry e) (rest : Text)
    → scan_lines (print_line e ++ 10 ∷ rest) ≡ print_line e ∷ scan_lines rest
print-scan_lines e w rest =
    scan-lines (print_line e) rest (one_line e.digits e.name w.only_digits w.one_line)

parse_lines-print :
    (es : List Entry) (result : Map ℕ Text)
    → AllEntries es
    → AllNew result es
    → parse_lines (scan_lines (print es)) result ≡ ok (insert_all es result)
unfolding print parse_lines insert_all scan_lines
parse_lines-print [] result w n = refl
parse_lines-print (e ∷ es) result (w, ws) (n, ns) =
    let rest = parse_lines-print es (insert ℕ_discrete e.id e.name result) ws ns in
    rw (print-scan_lines e w (print es)) (rw (parse_line-print_line e w result n) rest)

length-append : (s t : Text) → length (s ++ t) ≡ length s + length t
length-append [] t = omega arith
length-append (c ∷ s) t = omega (arith, length-append s t)

print-short :
    (es : List Entry)
    → AllEntries es
    → (short_lines (scan_lines (print es)) ≡ scan_lines (print es))
      × (has_long_line (scan_lines (print es)) ≡ false)
unfolding print short_lines has_long_line scan_lines
print-short [] w = (refl, refl)
print-short (e ∷ es) (w, ws) =
    let (rest, none_long) = print-short es ws in
    let fits : ltb (length (print_line e)) max_scan_token_size ≡ true =
      ground (arith, length-append e.digits (61 ∷ e.name), w.short) in
    (
      rw (print-scan_lines e w (print es))
          (rw (fits, short_lines) (ap (λ (ls : List Text). print_line e ∷ ls) rest)),
      rw (print-scan_lines e w (print es)) (rw (fits, has_long_line) none_long),
    )

-- A file of lines `digits=name`, where the digits write the number of a device, below 2^64, the
-- numbers differ, a name is not empty, has no newline and no Unicode spaces around it, and a line
-- with its newline fits the 64 KB of a Scanner, is read as the map of just these devices to these
-- names.
pub parse-print :
    (es : List Entry)
    → AllEntries es
    → AllNew empty es
    → parse (ok (record { text = print es; read_fails = none })) ≡ ok (insert_all es empty)
unfolding parse
parse-print es w n =
    let (all_short, none_long) = print-short es w in
    rw (all_short, none_long) (rw (parse_lines-print es empty w n) refl)
