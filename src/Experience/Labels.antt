-- ===== src/Experience/Labels.antt =====
-- The tags that an experience gets, whatever the language model answers.
use logit_be.Common.{
  ℕ, zero, suc, ◌≤◌, ◌≡◌, refl, Bool, true, Option, none, some, String, List, [], ◌∷◌, map, length,
  where_rows, take, All, arith, inl, inr, Bool-cases,
}
use logit_be.Text.Words.{strip, split, join, after_prefix}
use logit_be.Experience.Category.{available_tags, in_words}
use logit_be.Experience.{Experience}
use logit_be.Experience.Tags.{
  valid_tags, Labels, fallback, chosen_tags, labelled_line, read_answer, read_line, read_lines,
  tags_prompt, generate_tags_and_category,
}

abbrev IsKnown : String → Type 0
IsKnown t = in_words t available_tags ≡ true

-- A text of one to three tags of the list, parted by commas.
pub record IsTagged (text : String) : Type 0 where
  pub first : String
  pub rest : List String
  pub known : All (λ t. in_words t available_tags ≡ true) (first ∷ rest)
  pub at_most : length rest ≤ 2
  pub joined : text ≡ join ", " (first ∷ rest)

where_rows-All : (p : String → Bool) (ws : List String) → All (λ w. p w ≡ true) (where_rows p ws)
where_rows-All p [] = tt
where_rows-All p (w ∷ ws) = elim (Bool-cases (p w)) [
  | inl h ↦ rw h (h, where_rows-All p ws)
  | inr h ↦ rw h (where_rows-All p ws)
]

take-All : (P : String → Type 0) (n : ℕ) (ws : List String) → All P ws → All P (take n ws)
take-All P zero ws h = tt
take-All P (suc n) [] h = tt
take-All P (suc n) (w ∷ ws) h = (h.0, take-All P n ws h.1)

take_short : (n : ℕ) (ws : List String) → length (take n ws) ≤ n
take_short zero ws = omega arith
take_short (suc n) [] = omega arith
take_short (suc n) (w ∷ ws) = omega (arith, take_short n ws)

chosen-IsTagged :
    (old : String) (ws : List String)
    → IsTagged old
    → All (λ t. in_words t available_tags ≡ true) ws
    → IsTagged (chosen_tags old ws)
chosen-IsTagged old [] t h = t
chosen-IsTagged old (w ∷ ws) t h = record {
  first = w;
  rest = take 2 ws;
  known = (h.0, take-All (λ v. in_words v available_tags ≡ true) 2 ws h.1);
  at_most = take_short 2 ws;
  joined = refl;
}

labelled-IsTagged :
    (l : Labels) (t c : Option String) → IsTagged l.0 → IsTagged (labelled_line l t c).0
labelled-IsTagged (tags, category) (some raw) c t =
    chosen-IsTagged tags (valid_tags (strip raw)) t
      (where_rows-All (λ v. in_words v available_tags) (map strip (split b',' (strip raw))))
labelled-IsTagged (tags, category) none (some raw) t = t
labelled-IsTagged (tags, category) none none t = t

read_line-IsTagged : (l : Labels) (line : String) → IsTagged l.0 → IsTagged (read_line l line).0
unfolding read_line
read_line-IsTagged l line t =
    labelled-IsTagged l (after_prefix "태그:" (strip line)) (after_prefix "카테고리:" (strip line)) t

read_lines-IsTagged : (l : Labels) (ls : List String) → IsTagged l.0 → IsTagged (read_lines l ls).0
unfolding read_lines
read_lines-IsTagged l [] t = t
read_lines-IsTagged l (x ∷ ls) t = read_lines-IsTagged (read_line l x) ls (read_line-IsTagged l x t)

fallback-IsTagged : IsTagged fallback.0
fallback-IsTagged = record {
  first = "문제해결";
  rest = [];
  known = (refl, tt);
  at_most = omega arith;
  joined = refl;
}

read-IsTagged : (answer : Option String) → IsTagged (read_answer answer).0
unfolding read_answer
read-IsTagged none = fallback-IsTagged
read-IsTagged (some answer) =
    read_lines-IsTagged fallback (split b'\n' (strip answer)) fallback-IsTagged

-- Whatever the language model answers, an experience gets one to three tags of the list.
pub generated-IsTagged :
    (model : String → Option String) (e : Experience)
    → IsTagged (generate_tags_and_category model e).0
unfolding generate_tags_and_category
generated-IsTagged model e = read-IsTagged (model (tags_prompt e))
