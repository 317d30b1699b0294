-- ===== src/Experience/Bounds.antt =====
-- The range of the scores.
use logit_be.Common.{
  ℕ, ◌≤◌, ◌<◌, ◌+◌, ◌*◌, ltb, ◌≡◌, refl, Bool, true, false, not, ◌==◌, Option, none, some, String,
  List, [], ◌∷◌, ◌++◌, map, str_eq, length, where_rows, arith, inl, inr, Bool-cases, if◌then◌else◌,
}
use logit_be.Text.Words.{strip, split, join}
use logit_be.Text.{codes}
use logit_be.Experience.Category.{in_words}
use logit_be.Experience.{Experience}
use logit_be.Experience.Score.{
  distinct, both, either, tag_matching_score, category_matching_score, quality_of, quality_of_texts,
  content_quality, given_texts, fields_of, every, is_jamo, four_in_a_row, distinct_codes,
}

length-where_rows : (p : String → Bool) (xs : List String) → length (where_rows p xs) ≤ length xs
length-where_rows p [] = omega arith
length-where_rows p (x ∷ xs) = elim (Bool-cases (p x)) [
  | inl h ↦ rw h omega (arith, length-where_rows p xs)
  | inr h ↦ rw h omega (arith, length-where_rows p xs)
]

length-append : (xs ys : List String) → length (xs ++ ys) ≡ length xs + length ys
length-append [] ys = omega arith
length-append (x ∷ xs) ys = omega (arith, length-append xs ys)

both_at_most : (xs ys : List String) → length (both xs ys) ≤ length (either xs ys)
both_at_most xs ys = omega (
  arith,
  length-where_rows (λ w. in_words w ys) xs,
  length-append xs (where_rows (λ w. not (in_words w xs)) ys),
)

abbrev IsFraction : ℕ × ℕ → Type 0
IsFraction p = (p.0 ≤ p.1) × (0 < p.1)

IsFraction-if :
    (a b : Bool) (m n : ℕ)
    → (b ≡ (m == 0))
    → m ≤ n
    → IsFraction (if a then (0, 1) else if b then (0, 1) else (m, n))
IsFraction-if true b m n e h = (omega arith, omega arith)
IsFraction-if false true m n e h = (omega arith, omega arith)
IsFraction-if false false m n e h = (h, ground (arith, e, h))

tag-IsFraction : (tags : String) (asked : List String) → IsFraction (tag_matching_score tags asked)
unfolding tag_matching_score
tag-IsFraction tags [] = (omega arith, omega arith)
tag-IsFraction tags (t ∷ ts) =
    let own = distinct (map strip (split b',' tags)) in
    let asked = distinct (t ∷ ts) in
    IsFraction-if (str_eq tags "") (length (both own asked) == 0) (length (both own asked))
      (length (either own asked)) refl (both_at_most own asked)

category_at_most : (own : String) (c : Option String) → category_matching_score own c ≤ 1
unfolding category_matching_score
category_at_most own none = omega arith
category_at_most own (some c) = ground arith

abbrev IsQuality : ℕ → Type 0
IsQuality n = (1 ≤ n) × (n ≤ 10)

tests-IsQuality :
    (a b c d e : Bool)
    → IsQuality
        (if a then 1 else if b then 1 else if c then 1 else if d then 1 else if e then 7 else 10)
tests-IsQuality a b c d e = ground arith

quality_of-IsQuality : (combined chars : List ℕ) → IsQuality (quality_of combined chars)
quality_of-IsQuality combined chars =
    tests-IsQuality (length chars == 0) (every is_jamo combined) (four_in_a_row combined)
      (ltb (5 * length (distinct_codes chars)) (length chars)) (ltb (length chars) 20)

texts-IsQuality : (ss : List String) → IsQuality (quality_of_texts ss)
texts-IsQuality [] = (omega arith, omega arith)
texts-IsQuality (s ∷ ss) =
    let combined = codes (join " " (s ∷ ss)) in
    quality_of-IsQuality combined (where_rows (λ c. not (c == b' ')) combined)

-- The score of the tags is a fraction between 0 and 1, that of the category 0 or 1, and the quality of
-- a content between one tenth and 1, for any texts.
scores_in_range :
    (tags own : String) (asked : List String) (category : Option String) (e : Experience)
    → ((tag_matching_score tags asked).0 ≤ (tag_matching_score tags asked).1)
      × (0 < (tag_matching_score tags asked).1)
      × (category_matching_score own category ≤ 1)
      × (1 ≤ content_quality e)
      × (content_quality e ≤ 10)
unfolding content_quality
scores_in_range tags own asked category e =
    let f = tag-IsFraction tags asked in
    let q = texts-IsQuality (given_texts (fields_of e.format_type) e) in
    (f.0, f.1, category_at_most own category, q.0, q.1)
