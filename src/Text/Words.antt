-- ===== src/Text/Words.antt =====
-- `split()` and `rstrip()` on texts that are put together.
use mathlib.Core.Path.{◌≡⟨◌⟩◌, ◌∎}
use meta_security.Prelude.{
  ℕ, ◌≡◌, ◌≢◌, refl, sym, ap, ◌∙◌, inl, inr, true, false, List, [], ◌∷◌, ◌++◌, append-nil,
  append_assoc, arith, All, All-append, Bool-cases,
}
use meta_security.Text.Defs.{Str, is_space, rstrip, keep_before, words, words_from, emit}

-- White space only, and none.
abbrev pub IsBlank : Str → Type 0
IsBlank = All (λ c. is_space c ≡ true)

abbrev pub IsDense : Str → Type 0
IsDense = All (λ c. is_space c ≡ false)

words_from-IsBlank : (w s : Str) → IsBlank s → words_from w s ≡ emit w []
unfolding words_from
words_from-IsBlank w [] h = refl
words_from-IsBlank w (c ∷ s) h = ground (arith, words_from-IsBlank [] s h.1)

words_from-IsDense : (w s : Str) → IsDense s → words_from w s ≡ emit (w ++ s) []
unfolding words_from
words_from-IsDense w [] h = rw append-nil
words_from-IsDense w (c ∷ s) h =
    ground (arith, words_from-IsDense (w ++ (c ∷ [])) s h.1, append_assoc w (c ∷ []) s)

emit-append : (w : Str) (us vs : List Str) → emit w (us ++ vs) ≡ emit w us ++ vs
emit-append [] us vs = refl
emit-append (c ∷ w) us vs = refl

-- White space between two texts ends the word.
pub words_from-append :
    (w s t : Str) (c : ℕ)
    → is_space c ≡ true
    → words_from w (s ++ (c ∷ t)) ≡ words_from w s ++ words t
unfolding words words_from
words_from-append w [] t c h = ground (arith, emit-append w [] (words_from [] t))
words_from-append w (d ∷ s) t c h = ground (
  arith,
  words_from-append [] s t c h,
  words_from-append (w ++ (d ∷ [])) s t c h,
  emit-append w (words_from [] s) (words_from [] t),
)

-- White space at the end is no word.
words_from-append_IsBlank : (w s t : Str) → IsBlank t → words_from w (s ++ t) ≡ words_from w s
unfolding words_from
words_from-append_IsBlank w [] t h = words_from-IsBlank w t h
words_from-append_IsBlank w (d ∷ s) t h =
    ground
      (arith, words_from-append_IsBlank [] s t h, words_from-append_IsBlank (w ++ (d ∷ [])) s t h)

keep_before-eq_cons : (c : ℕ) (s : Str) → is_space c ≡ false → keep_before c s ≡ c ∷ s
unfolding keep_before
keep_before-eq_cons c [] h = ground arith
keep_before-eq_cons c (d ∷ s) h = refl

keep_before-ne-nil : (c : ℕ) (s : Str) → s ≢ [] → keep_before c s ≡ c ∷ s
unfolding keep_before
keep_before-ne-nil c [] h = absurd (h refl)
keep_before-ne-nil c (d ∷ s) h = refl

keep_before-append :
    (c : ℕ) (r t : Str) → IsBlank t → (u : Str) × (keep_before c r ++ u ≡ c ∷ r ++ t) × IsBlank u
unfolding keep_before
keep_before-append c [] t b = elim (Bool-cases (is_space c)) [
  | inl y ↦ (c ∷ t, ground arith, (y, b))
  | inr n ↦ (t, ground arith, b)
]
keep_before-append c (d ∷ r) t b = (t, refl, b)

-- `rstrip` cuts off white space and nothing else.
pub rstrip-append : (s : Str) → (t : Str) × (rstrip s ++ t ≡ s) × IsBlank t
unfolding rstrip
rstrip-append [] = ([], refl, tt)
rstrip-append (c ∷ s) =
    let (t, e, b) = rstrip-append s in
    let (u, e', b') = keep_before-append c (rstrip s) t b in (u, e' ∙ ap (λ (r : Str). c ∷ r) e, b')

-- A dense text in front of another is out of the reach of `rstrip`.
pub rstrip-append_IsDense : (p s : Str) → IsDense p → rstrip (p ++ s) ≡ p ++ rstrip s
unfolding rstrip
rstrip-append_IsDense [] s h = refl
rstrip-append_IsDense (c ∷ p) s h =
    rw (rstrip-append_IsDense p s h.1) (keep_before-eq_cons c (p ++ rstrip s) h.0)

append-cons-ne-nil : (s t : Str) (c : ℕ) → s ++ (c ∷ t) ≢ []
append-cons-ne-nil [] t c h = cc
append-cons-ne-nil (d ∷ s) t c h = cc

-- So is all that stands in front of a character that is not white space.
pub rstrip-append_cons :
    (s t : Str) (c : ℕ) → is_space c ≡ false → rstrip (s ++ (c ∷ t)) ≡ s ++ (c ∷ rstrip t)
unfolding rstrip
rstrip-append_cons [] t c h = keep_before-eq_cons c (rstrip t) h
rstrip-append_cons (d ∷ s) t c h =
    rw (rstrip-append_cons s t c h)
      (keep_before-ne-nil d (s ++ (c ∷ rstrip t)) (append-cons-ne-nil s (rstrip t) c))

words-rstrip : (s : Str) → words (rstrip s) ≡ words s
unfolding words
words-rstrip s =
    let (t, e, b) = rstrip-append s in
    sym (words_from-append_IsBlank [] (rstrip s) t b) ∙ ap (words_from []) e

emit_one : (d : Str) → d ≢ [] → emit d [] ≡ d ∷ []
emit_one [] ne = absurd (ne refl)
emit_one (c ∷ d) ne = refl

-- A word put behind a stripped text is one more word.
pub words-append_word :
    (s d : Str)
    → IsDense d
    → d ≢ []
    → words (rstrip s ++ (32 ∷ d ++ (10 ∷ []))) ≡ words s ++ (d ∷ [])
unfolding words is_space
words-append_word s d h ne =
    words (rstrip s ++ (32 ∷ d ++ (10 ∷ [])))
    ≡⟨ words_from-append [] (rstrip s) (d ++ (10 ∷ [])) 32 refl ⟩
      words (rstrip s) ++ words (d ++ (10 ∷ []))
    ≡⟨ (rw (words-rstrip s)) ⟩ words s ++ words (d ++ (10 ∷ []))
    ≡⟨ ap (λ (r : List Str). words s ++ r)
        (words_from-append_IsBlank [] d (10 ∷ []) (refl, tt)
          ∙ (words_from-IsDense [] d h ∙ emit_one d ne)) ⟩
      words s ++ (d ∷ []) ∎

-- A word has a character, and no white space.
abbrev pub IsWord : Str → Type 0
IsWord w = (w ≢ []) × IsDense w

emit-IsWord : (w : Str) (ws : List Str) → IsDense w → All IsWord ws → All IsWord (emit w ws)
emit-IsWord [] ws h hs = hs
emit-IsWord (c ∷ w) ws h hs = ((ground arith, h), hs)

words_from-IsWord : (w s : Str) → IsDense w → All IsWord (words_from w s)
unfolding words_from
words_from-IsWord w [] h = emit-IsWord w [] h tt
words_from-IsWord w (c ∷ s) h = elim (Bool-cases (is_space c)) [
  | inl y ↦ rw (y, words_from) (emit-IsWord w _ h (words_from-IsWord [] s tt))
  | inr n ↦
      rw (n, words_from)
        (words_from-IsWord (w ++ (c ∷ [])) s
          (All-append (λ (c : ℕ). is_space c ≡ false) w (c ∷ []) h (n, tt)))
]

-- `split()` lists words only.
pub words-IsWord : (s : Str) → All IsWord (words s)
unfolding words
words-IsWord s = words_from-IsWord [] s tt

-- White space at the end does not change what `rstrip` returns.
pub rstrip-append_IsBlank : (s t : Str) → IsBlank t → rstrip (s ++ t) ≡ rstrip s
unfolding rstrip keep_before
rstrip-append_IsBlank [] [] h = refl
rstrip-append_IsBlank [] (c ∷ t) h = ground (arith, rstrip-append_IsBlank [] t h.1)
rstrip-append_IsBlank (d ∷ s) t h = ap (keep_before d) (rstrip-append_IsBlank s t h)
