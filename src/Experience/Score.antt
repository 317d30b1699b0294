-- ===== src/Experience/Score.antt =====
-- The scores of src/experience/service.py: how tags and categories match, and how good a text is.
-- Numbers of type `S` are Python's floats: their arithmetic is a parameter.
use logit_be.Common.{
  ℕ, ◌*◌, ltb, leb, Bool, true, false, not, ◌&&◌, ◌||◌, ◌==◌, Option, none, some, String, List, [],
  ◌∷◌, ◌++◌, map, str_eq, length, where_rows, if◌then◌else◌,
}
use logit_be.Text.{codes}
use logit_be.Text.Words.{strip, split, join}
use logit_be.Experience.Category.{in_words}
use logit_be.Experience.{
  ExperienceFormatType, star, psi, free, Field, situation, task, action, result, problem, solution,
  insight, content, Experience, has_text,
}

-- `ratio n d` is the float nearest to `n / d`, which a literal is too.
pub record Floats (S : Type 0) : Type 0 where
  pub ratio : ℕ → ℕ → S
  pub plus : S → S → S
  pub times : S → S → S
  pub divide : S → S → S
  pub square : S → S
  pub root : S → S
  pub less : S → S → Bool

-- `set(words)`, each word once.
abbrev pub distinct : List String → List String
distinct [] = []
distinct (w ∷ ws) = let rest = distinct ws in if in_words w rest then rest else w ∷ rest

abbrev pub both : List String → List String → List String
both xs ys = where_rows (λ w. in_words w ys) xs

abbrev pub either : List String → List String → List String
either xs ys = xs ++ where_rows (λ w. not (in_words w xs)) ys

-- The score of the tags as a numerator and a denominator.
unfoldable pub tag_matching_score : String → List String → ℕ × ℕ
tag_matching_score tags [] = (0, 1)
tag_matching_score tags (t ∷ ts) =
    let own = distinct (map strip (split b',' tags)) in
    let asked = distinct (t ∷ ts) in
    let matching = length (both own asked) in
    if str_eq tags ""
    then (0, 1)
    else if matching == 0
    then (0, 1)
    else (matching, length (either own asked))

unfoldable pub category_matching_score : String → Option String → ℕ
category_matching_score own none = 0
category_matching_score own (some c) = if str_eq c "" then 0 else if str_eq own c then 1 else 0

abbrev pub given_texts : List Field → Experience → List String
given_texts [] e = []
given_texts (x ∷ xs) e = elim (e.fields x) [
  | none ↦ given_texts xs e
  | some s ↦ if has_text (some s) then s ∷ given_texts xs e else given_texts xs e
]

abbrev pub fields_of : Option ExperienceFormatType → List Field
fields_of (some star) = situation ∷ task ∷ action ∷ result ∷ []
fields_of (some psi) = problem ∷ solution ∷ insight ∷ []
fields_of (some free) = content ∷ []
fields_of none = []

abbrev is_space : ℕ → Bool
is_space c = leb 9 c && leb c 13 || leb 28 c && leb c 32

-- `_HANGUL_JAMO_ONLY_PATTERN`: letters from ㄱ to ㅣ, blanks and . , ! ? ~
abbrev pub is_jamo : ℕ → Bool
is_jamo c =
    leb 12593 c && leb c 12643
    || is_space c
    || c == b'.'
    || c == b','
    || c == b'!'
    || c == b'?'
    || c == b'~'

abbrev pub every : (ℕ → Bool) → List ℕ → Bool
every p [] = true
every p (c ∷ cs) = p c && every p cs

-- `_REPEATED_CHAR_PATTERN`: a character but a line feed four times in a row.
abbrev pub four_in_a_row : List ℕ → Bool
four_in_a_row (a ∷ b ∷ c ∷ d ∷ cs) =
    a == b && b == c && c == d && not (a == 10) || four_in_a_row (b ∷ c ∷ d ∷ cs)
four_in_a_row cs = false

abbrev has_code : ℕ → List ℕ → Bool
has_code c [] = false
has_code c (d ∷ ds) = d == c || has_code c ds

abbrev pub distinct_codes : List ℕ → List ℕ
distinct_codes [] = []
distinct_codes (c ∷ cs) = let rest = distinct_codes cs in if has_code c rest then rest else c ∷ rest

-- In tenths, from the characters of the text and those that are no space.
abbrev pub quality_of : List ℕ → List ℕ → ℕ
quality_of combined chars =
    if length chars == 0
    then 1
    else if every is_jamo combined
    then 1
    else if four_in_a_row combined
    then 1
    else if ltb (5 * length (distinct_codes chars)) (length chars)
    then 1
    else if ltb (length chars) 20
    then 7
    else 10

abbrev pub quality_of_texts : List String → ℕ
quality_of_texts [] = 2
quality_of_texts (s ∷ ss) =
    let combined = codes (join " " (s ∷ ss)) in
    quality_of combined (where_rows (λ c. not (c == b' ')) combined)

unfoldable pub content_quality : Experience → ℕ
content_quality e = quality_of_texts (given_texts (fields_of e.format_type) e)

module _ {S : Type 0} (num : Floats S) where
  -- `min(a, b)`
  abbrev pub lesser : S → S → S
  lesser a b = if num.less b a then b else a

  unfoldable pub final_score : S → ℕ × ℕ → ℕ → ℕ → S
  final_score base tags category quality =
      let tag_score = num.ratio tags.0 tags.1 in
      let raw =
        num.plus (num.plus base (num.times tag_score (num.ratio 1 10)))
          (num.times (num.ratio category 1) (num.ratio 5 100)) in
      lesser (num.plus (num.times raw (num.ratio quality 10)) (num.ratio 2 10)) (num.ratio 1 1)
