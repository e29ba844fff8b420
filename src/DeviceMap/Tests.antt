-- ===== src/DeviceMap/Tests.antt =====
-- Two devices, "1=ab" and "20=c".
use iml.Common.{◌≡◌, refl, none, List, [], ◌∷◌, ℕ_discrete, arith}
use iml.Common.Maps.{empty}
use iml.Common.Results.{ok, err}
use iml.DeviceMap.{parse, parse_lines, duplicate_id, parse_if_exists, not_exist}
use iml.DeviceMap.RoundTrip.{Entry, AllEntries, AllNew, print, insert_all, parse-print}

abbrev first : Entry
first = record { id = 1; digits = 49 ∷ []; name = 97 ∷ 98 ∷ [] }

abbrev second : Entry
second = record { id = 20; digits = 50 ∷ 48 ∷ []; name = 99 ∷ [] }

abbrev devices : List Entry
devices = first ∷ second ∷ []

program : Unit {0}
unfolding parse parse_lines parse_if_exists print insert_all ℕ_discrete
program = tt

-- " 7 = x " is read without the spaces; a second line for 7 is an error.
spaces_read :
    parse_lines ((32 ∷ 55 ∷ 32 ∷ 61 ∷ 32 ∷ 120 ∷ 32 ∷ []) ∷ (55 ∷ 61 ∷ 121 ∷ []) ∷ []) empty
    ≡ err duplicate_id
unfolding program
spaces_read = refl

-- "7=x" with a no-break space, U+00A0, after it.
unicode_space_read :
    parse_lines ((55 ∷ 61 ∷ 120 ∷ 194 ∷ 160 ∷ []) ∷ []) empty
    ≡ parse_lines ((55 ∷ 61 ∷ 120 ∷ []) ∷ []) empty
unfolding program
unicode_space_read = refl

missing_read : parse_if_exists (err not_exist) ≡ ok empty
unfolding program
missing_read = refl

devices-AllEntries : AllEntries devices
unfolding program
devices-AllEntries = (
  record {
    some_digits = refl;
    only_digits = refl;
    number = refl;
    in_range = omega arith;
    left_trimmed = refl;
    right_trimmed = refl;
    short = omega arith;
    named = refl;
    one_line = refl;
  },
  (
    record {
      some_digits = refl;
      only_digits = refl;
      number = refl;
      in_range = omega arith;
      left_trimmed = refl;
      right_trimmed = refl;
      short = omega arith;
      named = refl;
      one_line = refl;
    },
    tt,
  ),
)

devices-AllNew : AllNew empty devices
unfolding program
devices-AllNew = (refl, (refl, tt))

parse-print_example :
    parse (ok (record { text = print devices; read_fails = none })) ≡ ok (insert_all devices empty)
parse-print_example = parse-print devices devices-AllEntries devices-AllNew
