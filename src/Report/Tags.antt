-- ===== src/Report/Tags.antt =====
-- The tags that are counted are those that an experience was given.
use logit_be.Common.{
  ◌≤◌, ◌≡◌, refl, sym, ap, ◌∙◌, subst, Bool, true, false, not, ◌&&◌, Option, String, List, [], ◌∷◌,
  str_eq, map, length, where_rows, All, arith, inl, inr, Bool-cases, eq_iff,
}
use logit_be.Text.Words.{strip, split, join}
use logit_be.Text.Joined.{is_word, split-join}
use logit_be.Experience.Category.{available_tags, in_words}
use logit_be.Experience.{Experience}
use logit_be.Experience.Tags.{generate_tags_and_category}
use logit_be.Experience.Labels.{generated-IsTagged}
use logit_be.Report.{tags_of_text}

abbrev all_words : (String → Bool) → List String → Bool
all_words p [] = true
all_words p (w ∷ ws) = p w && all_words p ws

of_words :
    (p : String → Bool) (w : String) (ws : List String)
    → all_words p ws ≡ true
    → in_words w ws ≡ true
    → p w ≡ true
of_words p w [] h k = absurd (ground arith)
of_words p w (x ∷ xs) h k = elim (Bool-cases (str_eq x w)) [
  | inl e ↦ subst (λ v. p v ≡ true) ((eq_iff x w).0 e) (ground arith)
  | inr e ↦ of_words p w xs (ground arith) (grind arith)
]

abbrev is_given : String → Bool
is_given w = not (str_eq w "") && is_word w

known_words : all_words is_given available_tags ≡ true
known_words = refl

IsKnown-words :
    (ws : List String)
    → All (λ t. in_words t available_tags ≡ true) ws
    → All (λ w. is_given w ≡ true) ws
IsKnown-words [] h = tt
IsKnown-words (w ∷ ws) h =
    (of_words is_given w available_tags known_words h.0, IsKnown-words ws h.1)

given-words : (ws : List String) → All (λ w. is_given w ≡ true) ws → All (λ w. is_word w ≡ true) ws
given-words [] h = tt
given-words (w ∷ ws) h = (ground arith, given-words ws h.1)

where_given :
    (ws : List String)
    → All (λ w. is_given w ≡ true) ws
    → where_rows (λ t. not (str_eq t "")) ws ≡ ws
where_given [] h = refl
where_given (w ∷ ws) h =
    let g : str_eq w "" ≡ false = ground arith in rw g (ap (λ xs. w ∷ xs) (where_given ws h.1))

-- A joined text of such words is not empty, as it is parted into something else.
joined_given :
    (w : String) (ws : List String)
    → All (λ v. is_given v ≡ true) (w ∷ ws)
    → str_eq (join ", " (w ∷ ws)) "" ≡ false
joined_given w ws h = elim (Bool-cases (str_eq (join ", " (w ∷ ws)) "")) [
  | inr e ↦ e
  | inl e ↦
      let empty : "" ∷ [] ≡ w ∷ ws =
        sym (ap (λ s. map strip (split b',' s)) ((eq_iff (join ", " (w ∷ ws)) "").0 e))
        ∙ split-join w ws (given-words (w ∷ ws) h) in
      let first : "" ≡ w = ap (λ (xs : List String). elim xs [ [] ↦ "" | x ∷ ys ↦ x ]) empty in
      absurd (clash (is_given w) (subst (λ v. is_given v ≡ false) first refl) h.0)
]
  where
    clash : (b : Bool) → b ≡ false → b ≡ true → ⊥
    clash b x y = ground arith

tags_of_text-join :
    (w : String) (ws : List String)
    → All (λ v. is_given v ≡ true) (w ∷ ws)
    → tags_of_text (join ", " (w ∷ ws)) ≡ w ∷ ws
tags_of_text-join w ws h = rw (joined_given w ws h) (
    ap (λ xs. where_rows (λ t. not (str_eq t "")) xs) (split-join w ws (given-words (w ∷ ws) h))
    ∙ where_given (w ∷ ws) h)

-- Whatever the language model answers, the report counts an experience for the tags that it was
-- given: one to three of them, all of the list of known tags.
pub counted_tags :
    (model : String → Option String) (e : Experience)
    → (ts : List String) × (tags_of_text (generate_tags_and_category model e).0 ≡ ts)
      × (1 ≤ length ts)
      × (length ts ≤ 3)
      × All (λ t. in_words t available_tags ≡ true) ts
counted_tags model e =
    let t = generated-IsTagged model e in
    (
      t.first ∷ t.rest,
      ap (λ s. tags_of_text s) t.joined
          ∙ tags_of_text-join t.first t.rest (IsKnown-words (t.first ∷ t.rest) t.known),
      omega arith,
      omega (arith, t.at_most),
      t.known,
    )
