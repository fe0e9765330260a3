-- ===== src/Questions/Shelf.antt =====
-- The questions files of a whole run: `xform_file` and the loop of `main` on their views.
use meta_security.Prelude.{
  ◌≡◌, refl, ap, ◌∙◌, true, false, List, [], ◌∷◌, Option, none, some, Result, ok, if◌then◌else◌,
  All, Bool-cases, inl, inr,
}
use meta_security.Text.{Str, str_eq}
use meta_security.Text.Equality.{str_eq→eq}
use meta_security.Questions.Lines.{Error}
use meta_security.Questions.Files.{
  File, Node, file, Fs, Os, find, as_file, read_lines, concat, xform_file,
}
use meta_security.Questions.Script.{Args, questions_file, xform_all}
use meta_security.Questions.Amend.{IsName}
use meta_security.Questions.Replace.{IsFresh, output, replaced, xform_file_ended}
use meta_security.Questions.Run.{xform_all_ended}
use meta_security.Questions.Transform.{read_lines-output, find-replaced}
use meta_security.Questions.View.{Question, view, is_questions, insert}
use meta_security.Questions.Refines.{Inserts}
use meta_security.Questions.Insert.{add_requires-Inserts}

-- The questions of the file at a path, none if there is no file.
abbrev pub view_of : Option File → List Question
view_of none = []
view_of (some f) = view (read_lines f.text)

pub questions_at : Fs → Str → List Question
questions_at fs p = view_of (as_file (find fs p))

-- There is a questions file at the path.
abbrev pub IsShelved : Fs → Str → Type 0
IsShelved fs p =
    (f : File) × (find fs p ≡ some (file f)) × (is_questions false (read_lines f.text) ≡ true)

questions_at-file :
    (fs : Fs) (p : Str) (f : File)
    → find fs p ≡ some (file f)
    → questions_at fs p ≡ view (read_lines f.text)
unfolding questions_at
questions_at-file fs p f e = rw e refl

questions_at-find :
    (fs gs : Fs) (p : Str) → find fs p ≡ find gs p → questions_at fs p ≡ questions_at gs p
unfolding questions_at
questions_at-find fs gs p e = ap (λ (n : Option Node). view_of (as_file n)) e

module _ (os : Os) (fresh : IsFresh os) (q d i : Str) (name : IsName d) (fs : Fs) (f : File)
    (e : find fs q ≡ some (file f)) (k : is_questions false (read_lines f.text) ≡ true) where
  inserted : Inserts i d false (read_lines f.text) (output os q d i fs f)
  inserted = add_requires-Inserts i d name false (read_lines f.text) k

  abbrev new_file : File
  new_file = record { text = concat (output os q d i fs f).items; stat = f.stat }

  xform_file_shelved : xform_file os q d i fs ≡ (ok tt, replaced os q d i fs f)
  xform_file_shelved = xform_file_ended os q d i fs {f = f} (rw e refl) inserted.ends

  read_lines-new_file : read_lines new_file.text ≡ (output os q d i fs f).items
  read_lines-new_file = read_lines-output os fresh q d i name fs f inserted.ends

  find-replaced_file :
      (p : Str)
      → find (replaced os q d i fs f) p ≡ (if str_eq p q then some (file new_file) else find fs p)
  find-replaced_file = find-replaced os fresh q d i name fs f e

  replaced-view :
      (p : Str)
      → questions_at (replaced os q d i fs f) p
        ≡ (if str_eq p q then insert i d (questions_at fs p) else questions_at fs p)
  replaced-view p = elim (Bool-cases (str_eq p q)) [
    | inl y ↦
        let old : questions_at fs p ≡ view (read_lines f.text) =
          ap (questions_at fs) (str_eq→eq p q y) ∙ questions_at-file fs q f e in
        let new : find (replaced os q d i fs f) p ≡ some (file new_file) =
          find-replaced_file p ∙ rw y refl in
        rw (y, old)
          (questions_at-file (replaced os q d i fs f) p new_file new
            ∙ (ap view read_lines-new_file ∙ inserted.viewed))
    | inr n ↦
        rw n (questions_at-find (replaced os q d i fs f) fs p (find-replaced_file p ∙ rw n refl))
  ]

  replaced-IsShelved : (p : Str) → IsShelved fs p → IsShelved (replaced os q d i fs f) p
  replaced-IsShelved p (g, e', k') = elim (Bool-cases (str_eq p q)) [
    | inl y ↦ (new_file, find-replaced_file p ∙ rw y refl, rw read_lines-new_file inserted.kept)
    | inr n ↦ (g, find-replaced_file p ∙ (rw n e'), k')
  ]

-- What the pairs do to the view of one file, in their order.
unfoldable pub insert_all : Args → Str → List (Str × Str) → List Question → List Question
insert_all args p [] qs = qs
insert_all args p ((q, i) ∷ rest) qs =
    insert_all args p rest
      (if str_eq p (questions_file args q) then insert i args.distro qs else qs)

abbrev pub AllShelved : Args → Fs → List (Str × Str) → Type 0
AllShelved args fs = All (λ pair. IsShelved fs (questions_file args pair.0))

-- What a run of the loop does: it ends, and every file has the view that the pairs make of its own.
pub record InsertsAll (os : Os) (args : Args) (pairs : List (Str × Str)) (fs : Fs) : Type 0 where
  pub ends : (xform_all os args pairs none fs).0 ≡ ok tt
  pub viewed :
      (p : Str)
      → questions_at (xform_all os args pairs none fs).1 p
        ≡ insert_all args p pairs (questions_at fs p)

AllShelved-map :
    (args : Args) (fs gs : Fs)
    → ((p : Str) → IsShelved fs p → IsShelved gs p)
    → (pairs : List (Str × Str)) → AllShelved args fs pairs
    → AllShelved args gs pairs
AllShelved-map args fs gs k [] a = tt
AllShelved-map args fs gs k ((q, i) ∷ rest) (s, a) =
    (k (questions_file args q) s, AllShelved-map args fs gs k rest a)

abbrev result : Result Error (Unit {0}) × Fs → Result Error (Unit {0})
result r = r.0

module _ (os : Os) (fresh : IsFresh os) (args : Args) (name : IsName args.distro) where
  xform_all-step :
      (q i : Str) (rest : List (Str × Str)) (fs gs : Fs)
      → xform_file os (questions_file args q) args.distro i fs ≡ (ok tt, gs)
      → xform_all os args ((q, i) ∷ rest) none fs ≡ xform_all os args rest none gs
  xform_all-step q i rest fs gs e =
      xform_all_ended os args q i rest none fs (ap result e)
      ∙ ap (λ (r : Result Error (Unit {0}) × Fs). xform_all os args rest none r.1) e

  -- Where all files that the pairs name are questions files, the loop ends, and does to the view of
  -- every file what the abstract insertions do.
  pub xform_all-InsertsAll :
      (pairs : List (Str × Str)) (fs : Fs) → AllShelved args fs pairs → InsertsAll os args pairs fs
  unfolding xform_all insert_all
  xform_all-InsertsAll [] fs a = record { ends = refl; viewed = λ p. refl }
  xform_all-InsertsAll ((q, i) ∷ rest) fs ((f, e, k), a) =
      let qf = questions_file args q in
      let gs = replaced os qf args.distro i fs f in
      let step =
        xform_all-step q i rest fs gs
          (xform_file_shelved os fresh qf args.distro i name fs f e k) in
      let ih = xform_all-InsertsAll rest gs (
        AllShelved-map args fs gs (replaced-IsShelved os fresh qf args.distro i name fs f e k) rest
          a) in
      record {
        ends = rw step ih.ends;
        viewed = λ p. rw step (
            ih.viewed p
            ∙ ap (insert_all args p rest)
                (replaced-view os fresh qf args.distro i name fs f e k p));
      }
