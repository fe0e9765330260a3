-- ===== src/Questions/Order.antt =====
-- The order of the pairs does not matter to the views, and a run on questions files succeeds.
use mathlib.Core.List.{Permᴰ}
use meta_security.Prelude.{
  ◌≡◌, refl, ap, sym, subst, ◌∙◌, Bool, true, false, List, [], Option, none, some, arith, ok,
  if◌then◌else◌,
}
use meta_security.Text.{Str, str_eq}
use meta_security.Questions.Lines.{Error, get_config}
use meta_security.Questions.Files.{File, file, directory, Fs, Os, find, read_lines}
use meta_security.Questions.Script.{
  Args, absolute, check_args, questions_file, xform_all, transform, transform_reported, main,
}
use meta_security.Questions.Amend.{IsName}
use meta_security.Questions.Replace.{IsFresh}
use meta_security.Questions.Run.{transform-xform_all}
use meta_security.Questions.View.{Question, insert}
use meta_security.Questions.Insert.{insert_comm}
use meta_security.Questions.Shelf.{
  questions_at, IsShelved, AllShelved, insert_all, InsertsAll, xform_all-InsertsAll,
}

-- What one pair does to the view of one file.
abbrev insert_one : Args → Str → Str × Str → List Question → List Question
insert_one args p pair qs =
    if str_eq p (questions_file args pair.0) then insert pair.1 args.distro qs else qs

insert_one_comm :
    (args : Args) (p : Str) (a b : Str × Str) (qs : List Question)
    → insert_one args p b (insert_one args p a qs) ≡ insert_one args p a (insert_one args p b qs)
insert_one_comm args p a b qs =
    go (str_eq p (questions_file args a.0)) (str_eq p (questions_file args b.0))
  where
    go :
        (x y : Bool)
        → (if y
            then insert b.1 args.distro (if x then insert a.1 args.distro qs else qs)
            else (if x then insert a.1 args.distro qs else qs))
          ≡ (if x
              then insert a.1 args.distro (if y then insert b.1 args.distro qs else qs)
              else (if y then insert b.1 args.distro qs else qs))
    go true true = insert_comm b.1 a.1 args.distro qs
    go true false = refl
    go false true = refl
    go false false = refl

insert_all_perm :
    (args : Args) (p : Str) {pairs pairs' : List (Str × Str)}
    → Permᴰ pairs pairs'
    → (qs : List Question) → insert_all args p pairs qs ≡ insert_all args p pairs' qs
unfolding insert_all
insert_all_perm args p Permᴰ.nil qs = refl
insert_all_perm args p (Permᴰ.cons {a} {b} {l₁} {l₂} e h) qs =
    insert_all_perm args p h (insert_one args p a qs)
    ∙ ap (λ (c : Str × Str). insert_all args p l₂ (insert_one args p c qs)) e
insert_all_perm args p (Permᴰ.swap {a} {b} {a'} {b'} {l} e f) qs = ap (insert_all args p l) (
    ap (λ (c : Str × Str). insert_one args p b (insert_one args p c qs)) e
    ∙ (ap (λ (c : Str × Str). insert_one args p c (insert_one args p b' qs)) f
        ∙ insert_one_comm args p b' a' qs))
insert_all_perm args p (Permᴰ.trans h k) qs =
    insert_all_perm args p h qs ∙ insert_all_perm args p k qs

AllShelved-perm :
    (args : Args) (fs : Fs) {pairs pairs' : List (Str × Str)}
    → Permᴰ pairs pairs'
    → AllShelved args fs pairs
    → AllShelved args fs pairs'
AllShelved-perm args fs Permᴰ.nil a = tt
AllShelved-perm args fs (Permᴰ.cons e h) (x, a) = (
  subst (λ (c : Str × Str). IsShelved fs (questions_file args c.0)) e x,
  AllShelved-perm args fs h a,
)
AllShelved-perm args fs (Permᴰ.swap e f) (x, (y, a)) = (
  subst (λ (c : Str × Str). IsShelved fs (questions_file args c.0)) f y,
  (subst (λ (c : Str × Str). IsShelved fs (questions_file args c.0)) e x, a),
)
AllShelved-perm args fs (Permᴰ.trans h k) a =
    AllShelved-perm args fs k (AllShelved-perm args fs h a)

-- Let new temporary files have free names, the distribution be a word without a colon, and all files
-- that the pairs name be questions files. The loop ends for the pairs in any order, and every file
-- has the same view behind it, whatever the order.
pub xform_all_perm :
    (os : Os) (args : Args) {pairs pairs' : List (Str × Str)} (fs : Fs)
    → IsFresh os
    → IsName args.distro
    → Permᴰ pairs pairs'
    → AllShelved args fs pairs
    → ((xform_all os args pairs none fs).0 ≡ ok tt)
      × ((xform_all os args pairs' none fs).0 ≡ ok tt)
      × ((p : Str)
          → questions_at (xform_all os args pairs none fs).1 p
            ≡ questions_at (xform_all os args pairs' none fs).1 p)
xform_all_perm os args {pairs} {pairs'} fs fresh name perm a =
    let x = xform_all-InsertsAll os fresh args name pairs fs a in
    let y = xform_all-InsertsAll os fresh args name pairs' fs (AllShelved-perm args fs perm a) in
    (
      x.ends,
      y.ends,
      λ p. x.viewed p ∙ (insert_all_perm args p perm (questions_at fs p) ∙ sym (y.viewed p)),
    )

-- A run whose arguments are accepted and whose files are transformed to the end reports nothing.
main_ends :
    (os : Os) (args : Args) (fs : Fs) (config : File)
    → find fs (absolute os args).questions_dir ≡ some directory
    → find fs (absolute os args).config_file ≡ some (file config)
    → (transform os (absolute os args) fs).0 ≡ ok tt
    → ((main os args fs).exit ≡ none)
      × ((main os args fs).traces ≡ [])
      × ((main os args fs).fs ≡ (transform os (absolute os args) fs).1)
unfolding main transform_reported check_args
main_ends os args fs config d c h = ground (arith, d, c, h)

-- Let new temporary files have free names and the distribution be a word without a colon. Where the
-- directory and the configuration file exist, no line of the configuration is refused and all files
-- that it names are questions files, a run neither exits with a message nor prints a traceback, and
-- does to the view of every file what the abstract insertions do.
pub main_succeeds :
    (os : Os) (args : Args) (fs : Fs) (config : File)
    → IsFresh os
    → IsName args.distro
    → find fs (absolute os args).questions_dir ≡ some directory
    → find fs (absolute os args).config_file ≡ some (file config)
    → (get_config (read_lines config.text)).stop ≡ none
    → AllShelved (absolute os args) fs (get_config (read_lines config.text)).items
    → let pairs = (get_config (read_lines config.text)).items in
      ((main os args fs).exit ≡ none)
      × ((main os args fs).traces ≡ [])
      × ((p : Str)
          → questions_at (main os args fs).fs p
            ≡ insert_all (absolute os args) p pairs (questions_at fs p))
main_succeeds os args fs config fresh name d c stop a =
    let abs = absolute os args in
    let pairs = (get_config (read_lines config.text)).items in
    let all : InsertsAll os abs pairs fs = xform_all-InsertsAll os fresh abs name pairs fs a in
    let e : transform os abs fs ≡ xform_all os abs pairs none fs =
      transform-xform_all os abs fs config c
      ∙ ap (λ (s : Option Error). xform_all os abs pairs s fs) stop in
    let (exit, traces, files) = main_ends os args fs config d c (rw e all.ends) in
    (exit, traces, λ p. rw (files, e) (all.viewed p))
