-- ===== src/Questions/Tests/Lines.antt =====
-- The theorems on lines, at concrete lines.
use meta_security.Prelude.{◌≡◌, refl, List, [], ◌∷◌, ◌++◌, some, arith, finished, map}
use meta_security.Text.{
  Str, lit, is_space, starts_with, strip, str_eq, split_on, words, rstrip, mem,
}
use meta_security.Questions.Lines.{
  value_error, skip_message, get_config, add_requires, names_label, is_require, check_contains,
  amend, is_label, add_to_require,
}
use meta_security.Questions.Config.{
  ConfigLine, comment, answer, write, get_config-write, get_config-skip_message,
}
use meta_security.Questions.Shape.{add_requires_lem}
use meta_security.Questions.Grows.{Grows, add_requires-Grows, add_requires-StopsIn}
use meta_security.Questions.View.{value_of, add_distro}
use meta_security.Questions.Distros.{distros_of, own_distros, is_label_of, add_requires-distros_of}
use meta_security.Questions.Tests.Data.{yocto, yocto-IsName}

abbrev lines : List ConfigLine
lines = comment (lit " Q\n") ∷ answer (lit "A") (lit "two") (lit "\"Y\"\n") ∷ []

get_config-write_example : get_config (map write lines) ≡ finished ((lit "A", lit "two") ∷ [])
get_config-write_example = get_config-write lines (unfold lit starts_with in ground arith)

-- An empty line ends the configuration.
get_config-skip_message_example :
    get_config (map write lines ++ ((10 ∷ []) ∷ map write lines)) ≡ record {
      items = (lit "A", lit "two") ∷ [];
      stop = some (
          value_error
            (skip_message (10 ∷ []) (lit "not enough values to unpack (expected 2, got 1)")));
    }
get_config-skip_message_example =
    get_config-skip_message lines (10 ∷ []) (map write lines)
      (unfold lit starts_with in ground arith) (unfold lit starts_with in refl) (omega arith, tt)

abbrev label : Str
label = lit "LABEL: two\n"

abbrev require : Str
require = lit "REQUIRE_DISTRO: DB\n"

add_requires_lem_example :
    add_requires (lit "two") yocto (lit "FILE: A\n" ∷ label ∷ require ∷ [])
    ≡ finished (lit "FILE: A\n" ∷ label ∷ lit "REQUIRE_DISTRO: DB Yocto\n" ∷ [])
unfolding names_label is_label is_require lit starts_with split_on strip str_eq mem words rstrip
    amend is_space
add_requires_lem_example =
    add_requires_lem yocto require (lit "REQUIRE_DISTRO") (lit " DB\n") [] refl refl (lit "two")
      label (lit "FILE: A\n" ∷ []) [] (refl, tt) refl tt

add_requires-Grows_example :
    Grows yocto (label ∷ require ∷ []) (add_requires (lit "two") yocto (label ∷ require ∷ [])).items
add_requires-Grows_example = add_requires-Grows (lit "two") yocto (label ∷ require ∷ []) (
    unfold add_requires names_label is_label add_to_require is_require check_contains lit
      starts_with split_on strip str_eq mem words rstrip amend is_space in
    refl)

-- A label with two colons is refused.
add_requires-StopsIn_example :
    (rest : List Str) × ((add_requires (lit "two") yocto (lit "LABEL: a:b\n" ∷ require ∷ [])).items
        ++ rest
      ≡ lit "LABEL: a:b\n" ∷ require ∷ [])
add_requires-StopsIn_example =
    add_requires-StopsIn (lit "two") yocto (lit "LABEL: a:b\n" ∷ require ∷ [])
      (unfold add_requires names_label is_label lit starts_with split_on in ground arith)

add_requires-distros_of_example :
    distros_of (lit "two") (add_requires (lit "two") yocto (label ∷ require ∷ [])).items
    ≡ some (lit "DB" ∷ yocto ∷ [])
unfolding distros_of own_distros is_label_of value_of add_distro is_label is_require lit starts_with
    split_on strip str_eq mem words is_space
add_requires-distros_of_example =
    add_requires-distros_of (lit "two") yocto yocto-IsName (label ∷ require ∷ []) (
      unfold add_requires names_label is_label add_to_require is_require check_contains lit
        starts_with split_on strip str_eq mem words rstrip amend is_space in
      refl)
