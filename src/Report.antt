-- ===== src/Report.antt =====
-- src/report/service.py, and the summary of src/report/router.py: the experiences of a user, counted by
-- type, category and tag. A `Counter` is the list of its keys and counts, in the order of first occurrence.
pub mod Counts
pub mod Summary
pub mod Tags
pub mod Tests
use logit_be.Common.{
  ℕ, zero, suc, ltb, Bool, not, Option, none, some, String, List, [], ◌∷◌, ◌++◌, map, str_eq,
  length, where_rows, if◌then◌else◌,
}
use logit_be.World.Action.{Result, ok, raised}
use logit_be.Text.Words.{strip, split}
use logit_be.Experience.Category.{type_value, value}
use logit_be.Experience.{Experience}
use logit_be.Experience.Client.{
  Reply, answered, unexpected_response, failed, QdrantClient, ◌>>=◌, or_503,
}
use logit_be.Experience.Store.{payloads}

abbrev pub Counts : Type 0
Counts = List (String × ℕ)

unfoldable pub add_key : String → Counts → Counts
add_key k [] = (k, 1) ∷ []
add_key k ((j, n) ∷ cs) =
    let rest = add_key k cs in if str_eq j k then (j, suc n) ∷ cs else (j, n) ∷ rest

unfoldable pub counter_from : Counts → List String → Counts
unfolding add_key
counter_from cs [] = cs
counter_from cs (k ∷ ks) = counter_from (add_key k cs) ks

-- `Counter(keys)`
abbrev pub counter : List String → Counts
unfolding counter_from
counter ks = counter_from [] ks

-- `sorted(counts.items(), key=lambda x: x[1], reverse=True)`, which keeps the order of equal counts.
unfoldable pub insert_count : String × ℕ → Counts → Counts
insert_count c [] = c ∷ []
insert_count c (x ∷ xs) =
    let rest = insert_count c xs in if ltb c.1 x.1 then x ∷ rest else c ∷ x ∷ xs

unfoldable pub most_first : Counts → Counts
unfolding insert_count
most_first [] = []
most_first (c ∷ cs) = insert_count c (most_first cs)

-- An experience that passed validation has a type.
abbrev pub type_name : Experience → String
type_name e = elim e.experience_type [ none ↦ "" | some t ↦ type_value t ]

abbrev pub category_name : Experience → String
category_name e = value e.category

abbrev pub tags_of_text : String → List String
tags_of_text text =
    if str_eq text "" then [] else where_rows (λ t. not (str_eq t "")) (map strip (split b',' text))

abbrev pub all_tags : List Experience → List String
all_tags [] = []
all_tags (e ∷ es) = tags_of_text e.tags ++ all_tags es

pub record Aggregates : Type 0 where
  pub type_counts : Counts
  pub category_counts : Counts
  pub tag_counts : Counts
  pub total : ℕ

unfoldable pub aggregate : List Experience → Aggregates
unfolding counter
aggregate es = record {
  type_counts = counter (map type_name es);
  category_counts = counter (map category_name es);
  tag_counts = counter (all_tags es);
  total = length es;
}

module _ {C V S : Type 0} (q : QdrantClient C V S) where
  -- One turn of the loop, by the reply to the scroll: the rest of the loop is an argument.
  abbrev pub next_turn :
      List Experience
      → (List Experience → Option String → Option (Reply (List Experience)))
      → Reply (List Experience × Option String)
      → Option (Reply (List Experience))
  next_turn points more (answered (page, none)) = some (answered (points ++ page))
  next_turn points more (answered (page, some next)) = more (points ++ page) (some next)
  next_turn points more unexpected_response = some unexpected_response
  next_turn points more failed = some failed

  -- The loop over the pages, from the points so far: `none` where it has not ended after `n` turns.
  unfoldable pub scroll_all :
      ℕ → String → List Experience → Option String → C → Option (Reply (List Experience))
  scroll_all zero u points offset c = none
  scroll_all (suc n) u points offset c =
      next_turn points (λ ps next. scroll_all n u ps next c) (q.scroll u 10000 offset c)

  abbrev pub converted : Option (Reply (List Experience)) → Option (Result (List Experience))
  converted none = none
  converted (some r) = some (or_503 r >>= payloads q)

  unfoldable pub get_all_user_experiences : ℕ → String → C → Option (Result (List Experience))
  unfolding scroll_all
  get_all_user_experiences n u c = converted (scroll_all n u [] none c)

  abbrev pub after :
      {A : Type 0} → (List Experience → A) → Option (Result (List Experience)) → Option (Result A)
  after f none = none
  after f (some r) = some (r >>= λ es. ok (f es))

  unfoldable pub get_experience_aggregates : ℕ → String → C → Option (Result Aggregates)
  unfolding aggregate
  get_experience_aggregates n u c = after aggregate (get_all_user_experiences n u c)

  unfoldable pub get_experience_type_counts : ℕ → String → C → Option (Result (Counts × ℕ))
  get_experience_type_counts n u c =
      after (λ es. (counter (map type_name es), length es)) (get_all_user_experiences n u c)

  unfoldable pub get_experience_category_counts : ℕ → String → C → Option (Result (Counts × ℕ))
  get_experience_category_counts n u c =
      after (λ es. (counter (map category_name es), length es)) (get_all_user_experiences n u c)

  unfoldable pub get_experience_tag_counts : ℕ → String → C → Option (Result (Counts × ℕ))
  get_experience_tag_counts n u c =
      after (λ es. (counter (all_tags es), length es)) (get_all_user_experiences n u c)

  abbrev pub ordered : Aggregates → Aggregates
  unfolding most_first
  ordered a = record {
    type_counts = most_first a.type_counts;
    category_counts = most_first a.category_counts;
    tag_counts = most_first a.tag_counts;
    total = a.total;
  }

  abbrev pub ordered_answer : Option (Result Aggregates) → Option (Result Aggregates)
  ordered_answer none = none
  ordered_answer (some r) = some (r >>= λ a. ok (ordered a))

  -- The endpoint that reads once and counts three times.
  unfoldable pub get_experience_summary : ℕ → String → C → Option (Result Aggregates)
  get_experience_summary n u c = ordered_answer (get_experience_aggregates n u c)
