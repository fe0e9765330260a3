-- ===== src/Questions/Config.antt =====
-- `get_config`: the pairs of a configuration file, and the line that ends it.
use meta_security.Prelude.{
  ℕ, ◌≡◌, ◌≢◌, refl, ap, sym, ◌∙◌, false, List, [], ◌∷◌, ◌++◌, some, arith, append-nil,
  append_assoc, ok, err, Gen, finished, failed, yield_first, All, All-append, map,
}
use meta_security.Text.{Str, lit, starts_with, split_on}
use meta_security.Text.Pieces.{Lacks, split_on-Lacks, split_on-append}
use meta_security.Questions.Lines.{
  Error, value_error, skip_message, coordinates, config_entry, get_config,
}

pub data ConfigLine : Type 0 where
  comment : Str → ConfigLine
  answer : Str → Str → Str → ConfigLine

-- `# …`, and `fname.ident=value`.
abbrev pub write : ConfigLine → Str
write (comment s) = b'#' ∷ s
write (answer fname ident value) = fname ++ (b'.' ∷ ident ++ (b'=' ∷ value))

abbrev pub IsWritable : ConfigLine → Type 0
IsWritable (comment s) = Unit
IsWritable (answer fname ident value) =
    Lacks b'.' fname
    × Lacks b'=' fname
    × Lacks b'.' ident
    × Lacks b'=' ident
    × Lacks b'=' value
    × (starts_with (write (answer fname ident value)) (lit "#") ≡ false)

abbrev pub pairs_of : List ConfigLine → List (Str × Str)
pairs_of [] = []
pairs_of (comment s ∷ ls) = pairs_of ls
pairs_of (answer fname ident value ∷ ls) = (fname, ident) ∷ pairs_of ls

split_on-equals :
    (fname ident value : Str)
    → IsWritable (answer fname ident value)
    → split_on b'=' (write (answer fname ident value)) ≡ (fname ++ (b'.' ∷ ident)) ∷ value ∷ []
split_on-equals fname ident value (a, b, c, d, e, _) =
    ap (split_on b'=') (sym (append_assoc fname (b'.' ∷ ident) (b'=' ∷ value)))
    ∙ (split_on-append b'=' (fname ++ (b'.' ∷ ident)) value
          (All-append (λ (c : ℕ). c ≢ b'=') fname (b'.' ∷ ident) b (omega arith, d))
        ∙ ap (λ (r : List Str). (fname ++ (b'.' ∷ ident)) ∷ r) (split_on-Lacks b'=' value e))

split_on-dot :
    (fname ident : Str)
    → Lacks b'.' fname
    → Lacks b'.' ident
    → split_on b'.' (fname ++ (b'.' ∷ ident)) ≡ fname ∷ ident ∷ []
split_on-dot fname ident a c =
    split_on-append b'.' fname ident a
    ∙ ap (λ (r : List Str). fname ∷ r) (split_on-Lacks b'.' ident c)

config_entry-write :
    (fname ident value : Str)
    → IsWritable (answer fname ident value)
    → config_entry (write (answer fname ident value)) ≡ ok (fname, ident)
unfolding config_entry coordinates
config_entry-write fname ident value w =
    ground (arith, split_on-equals fname ident value w, split_on-dot fname ident w.0 w.2)

get_config_answer :
    (l : Str) (ls : List Str) {pair : Str × Str}
    → starts_with l (lit "#") ≡ false
    → config_entry l ≡ ok pair
    → get_config (l ∷ ls) ≡ yield_first pair (get_config ls)
unfolding get_config
get_config_answer l ls n h = ground arith

get_config_bad :
    (l : Str) (ls : List Str) {e : Error}
    → starts_with l (lit "#") ≡ false
    → config_entry l ≡ err e
    → get_config (l ∷ ls) ≡ failed e
unfolding get_config
get_config_bad l ls n h = ground arith

get_config_comment : (s : Str) (ls : List Str) → get_config (write (comment s) ∷ ls) ≡ get_config ls
unfolding get_config lit starts_with
get_config_comment s ls = refl

abbrev after_pairs : List (Str × Str) → Gen Error (Str × Str) → Gen Error (Str × Str)
after_pairs ps g = record { items = ps ++ g.items; stop = g.stop }

get_config-append :
    (ls : List ConfigLine) (rest : List Str)
    → All IsWritable ls
    → get_config (map write ls ++ rest) ≡ after_pairs (pairs_of ls) (get_config rest)
get_config-append [] rest h = refl
get_config-append (comment s ∷ ls) rest h =
    get_config_comment s (map write ls ++ rest) ∙ get_config-append ls rest h.1
get_config-append (answer fname ident value ∷ ls) rest (w, h) =
    get_config_answer (write (answer fname ident value)) (map write ls ++ rest) w.5
      (config_entry-write fname ident value w)
    ∙ ap (yield_first (fname, ident)) (get_config-append ls rest h)

-- Comments and writable lines `fname.ident=value` are read as they were written: the pairs come in
-- order, and no error ends them.
pub get_config-write :
    (ls : List ConfigLine) → All IsWritable ls → get_config (map write ls) ≡ finished (pairs_of ls)
get_config-write ls h =
    ap get_config (sym (append-nil (map write ls)))
    ∙ (get_config-append ls [] h ∙ unfold get_config in rw append-nil)

config_entry-Lacks :
    (l : Str)
    → Lacks b'=' l
    → config_entry l
      ≡ err (value_error (skip_message l (lit "not enough values to unpack (expected 2, got 1)")))
unfolding config_entry
config_entry-Lacks l h = ground (arith, split_on-Lacks b'=' l h)

-- Behind comments and writable lines, a line with no `=` that is no comment ends the pairs with an
-- error, which has the message on skipping the line, and the lines behind it are not read.
pub get_config-skip_message :
    (ls : List ConfigLine) (l : Str) (rest : List Str)
    → All IsWritable ls
    → starts_with l (lit "#") ≡ false
    → Lacks b'=' l
    → get_config (map write ls ++ (l ∷ rest)) ≡ record {
      items = pairs_of ls;
      stop =
          some
            (value_error (skip_message l (lit "not enough values to unpack (expected 2, got 1)")));
    }
get_config-skip_message ls l rest h n lacks =
    get_config-append ls (l ∷ rest) h
    ∙ rw (get_config_bad l rest n (config_entry-Lacks l lacks), append-nil)
