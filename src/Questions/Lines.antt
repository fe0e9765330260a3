-- ===== src/Questions/Lines.antt =====
-- The part of set_required_questions.py that works on lines: `get_config`, `check_contains` and
-- `add_requires`. An open text file is the list of the lines that are left to read, so that a
-- later `for l in lines` goes on where an earlier one stopped, as a file iterator does.
use meta_security.Prelude.{
  Bool, true, false, List, [], ◌∷◌, ◌++◌, Result, ok, err, Gen, finished, failed, yield_first,
  if◌then◌else◌,
}
use meta_security.Text.{Str, lit, str_eq, mem, starts_with, rstrip, strip, words, split_on}

pub data Error : Type 0 where
  value_error : Str → Error
  os_error : Str → Error

-- `(a, b) = parts`, with the text of the `ValueError` that it raises otherwise.
abbrev pub unpack : List Str → Result Str (Str × Str)
unpack [] = err (lit "not enough values to unpack (expected 2, got 0)")
unpack (a ∷ []) = err (lit "not enough values to unpack (expected 2, got 1)")
unpack (a ∷ b ∷ []) = ok (a, b)
unpack (a ∷ b ∷ c ∷ rest) = err (lit "too many values to unpack (expected 2)")

unfoldable pub skip_message : Str → Str → Str
skip_message l e = lit "Skipping badly formatted line " ++ (strip l ++ (lit ", " ++ e))

unfoldable pub coordinates_message : Str → Str → Str
coordinates_message coord l =
    lit "Badly formatted coordinates " ++ (coord ++ (lit " in line " ++ (strip l ++ lit ".")))

-- The inner `try`: the coordinates `fname.ident`, or the text of the error.
unfoldable pub coordinates : Str → Str → Result Str (Str × Str)
unfolding coordinates_message
coordinates coord l = elim (unpack (split_on b'.' coord)) [
  | ok pair ↦ ok pair
  | err _ ↦ err (coordinates_message coord l)
]

-- The outer `try`. What the inner one raises is a `ValueError` too, and is raised anew here.
unfoldable pub config_entry : Str → Result Error (Str × Str)
unfolding coordinates skip_message
config_entry l = elim (unpack (split_on b'=' l)) [
  | err e ↦ err (value_error (skip_message l e))
  | ok (coord, value) ↦ elim (coordinates coord l) [
    | err e ↦ err (value_error (skip_message l e))
    | ok pair ↦ ok pair
  ]
]

unfoldable pub get_config : List Str → Gen Error (Str × Str)
get_config [] = finished []
get_config (l ∷ ls) =
    let rest = get_config ls in
    if starts_with l (lit "#")
    then rest
    else elim (config_entry l) [ ok pair ↦ yield_first pair rest | err e ↦ failed e ]

unfoldable pub check_contains : Str → Str → Result Error Bool
check_contains line name = elim (unpack (split_on b':' line)) [
  | ok (label, distros) ↦ ok (mem name (words distros))
  | err e ↦ err (value_error (lit "Error splitting REQUIRE_DISTRO line: " ++ e))
]

-- `l.startswith("LABEL:")`
unfoldable pub is_label : Str → Bool
is_label l = starts_with l (lit "LABEL:")

-- `l.startswith("REQUIRE_DISTRO")`
unfoldable pub is_require : Str → Bool
is_require l = starts_with l (lit "REQUIRE_DISTRO")

-- The test of the first loop at a line: does it end the loop, go on, or raise?
unfoldable pub names_label : Str → Str → Result Error Bool
unfolding is_label
names_label the_ident l =
    if is_label l
    then elim (unpack (split_on b':' l)) [
      | ok (label, ident) ↦ ok (str_eq (strip ident) the_ident)
      | err _ ↦ err (value_error (lit "Unexpected line " ++ (strip l ++ lit " in questions file.")))
    ]
    else ok false

-- `l.rstrip() + " " + distro + "\n"`
unfoldable pub amend : Str → Str → Str
amend distro l = rstrip l ++ (32 ∷ distro ++ (10 ∷ []))

-- The second and the third loop.
unfoldable pub add_to_require : Str → List Str → Gen Error Str
add_to_require distro [] = finished []
add_to_require distro (l ∷ ls) =
    let rest = add_to_require distro ls in
    if is_require l
    then elim (check_contains l distro) [
      | ok true ↦ finished (l ∷ ls)
      | ok false ↦ finished (amend distro l ∷ ls)
      | err e ↦ failed e
    ]
    else yield_first l rest

-- The first loop yields a line before it looks at it.
unfoldable pub add_requires : Str → Str → List Str → Gen Error Str
add_requires the_ident distro [] = finished []
add_requires the_ident distro (l ∷ ls) =
    let rest = add_requires the_ident distro ls in
    yield_first l (elim (names_label the_ident l) [
      | ok true ↦ add_to_require distro ls
      | ok false ↦ rest
      | err e ↦ failed e
    ])
