-- ===== src/Text/Defs.antt =====
-- The methods of `str`, each by recursion on the code points.
use Prim.Native.Char.{code}
use Prim.Native.String.{String}
use meta_security.Prelude.{
  ℕ, Bool, true, false, ◌&&◌, ◌||◌, List, [], ◌∷◌, ◌++◌, leb, ◌==◌, if◌then◌else◌,
}

abbrev pub Str : Type 0
Str = List ℕ

-- A literal. It stays shut in proofs, where only its identity matters.
unfoldable pub lit : String → Str
lit String.[] = []
lit (String.◌∷◌ c s) = code c ∷ lit s

-- `s == t`
unfoldable pub str_eq : Str → Str → Bool
str_eq [] [] = true
str_eq [] (d ∷ t) = false
str_eq (c ∷ s) [] = false
str_eq (c ∷ s) (d ∷ t) = c == d && str_eq s t

-- `x in xs`, for a list of texts
unfoldable pub mem : Str → List Str → Bool
unfolding str_eq
mem x [] = false
mem x (y ∷ ys) = str_eq x y || mem x ys

-- `s.startswith(p)`
unfoldable pub starts_with : Str → Str → Bool
starts_with s [] = true
starts_with [] (d ∷ p) = false
starts_with (c ∷ s) (d ∷ p) = c == d && starts_with s p

-- `p in s`
unfoldable pub is_infix : Str → Str → Bool
unfolding starts_with
is_infix p [] = starts_with [] p
is_infix p (c ∷ s) = starts_with (c ∷ s) p || is_infix p s

-- `c.isspace()`, for one code point
unfoldable pub is_space : ℕ → Bool
is_space c =
    leb 9 c && leb c 13
    || leb 28 c && leb c 32
    || c == 0x85
    || c == 0xa0
    || c == 0x1680
    || leb 0x2000 c && leb c 0x200a
    || c == 0x2028
    || c == 0x2029
    || c == 0x202f
    || c == 0x205f
    || c == 0x3000

unfoldable pub lstrip : Str → Str
lstrip [] = []
lstrip (c ∷ s) = let rest = lstrip s in if is_space c then rest else c ∷ s

-- A character in front of a stripped text is dropped if nothing is left behind it.
unfoldable pub keep_before : ℕ → Str → Str
keep_before c [] = if is_space c then [] else c ∷ []
keep_before c (d ∷ s) = c ∷ d ∷ s

unfoldable pub rstrip : Str → Str
unfolding keep_before
rstrip [] = []
rstrip (c ∷ s) = keep_before c (rstrip s)

unfoldable pub strip : Str → Str
unfolding lstrip rstrip
strip s = lstrip (rstrip s)

-- A finished word is listed unless it is empty.
abbrev pub emit : Str → List Str → List Str
emit [] ws = ws
emit (c ∷ w) ws = (c ∷ w) ∷ ws

-- The words of a text behind the word that has been read so far.
unfoldable pub words_from : Str → Str → List Str
words_from w [] = emit w []
words_from w (c ∷ s) = elim (is_space c) [
  | true ↦ emit w (words_from [] s)
  | false ↦ words_from (w ++ (c ∷ [])) s
]

-- `s.split()`
unfoldable pub words : Str → List Str
unfolding words_from
words s = words_from [] s

abbrev pub cons_head : ℕ → List Str → List Str
cons_head c [] = (c ∷ []) ∷ []
cons_head c (w ∷ ws) = (c ∷ w) ∷ ws

-- `s.split(sep)`, for a separator of one character
unfoldable pub split_on : ℕ → Str → List Str
split_on sep [] = [] ∷ []
split_on sep (c ∷ s) = let rest = split_on sep s in if c == sep then [] ∷ rest else cons_head c rest

-- `sep.join(parts)`
unfoldable pub join : Str → List Str → Str
join sep [] = []
join sep (w ∷ []) = w
join sep (w ∷ v ∷ ws) = w ++ (sep ++ join sep (v ∷ ws))
