-- ===== src/Report/Tests.antt =====
-- A report on one experience, and the theorems at it.
use logit_be.Common.{◌≡◌, ◌≤◌, refl, true, some, String, List, [], ◌∷◌, length, All, arith}
use logit_be.World.Action.{ok}
use logit_be.Experience.Category.{available_tags, in_words}
use logit_be.Experience.{Experience}
use logit_be.Experience.Tags.{generate_tags_and_category}
use logit_be.Experience.Store.{is_valid}
use logit_be.Experience.Memory.{memory}
use logit_be.Experience.Tests.{stored}
use logit_be.Report.{Aggregates, tags_of_text, get_experience_summary}
use logit_be.Report.Summary.{IsSummary, joined, whole_report}
use logit_be.Report.Tags.{counted_tags}

abbrev one_page : List (List Experience)
one_page = (stored ∷ []) ∷ []

whole_report_example :
    (a : Aggregates) × (get_experience_summary memory 1 "u1" (some stored) ≡ some (ok a))
    × IsSummary (joined one_page) a
unfolding is_valid
whole_report_example =
    whole_report memory 1 "u1" (some stored) one_page (omega arith) refl (refl, tt)

counted_tags_example :
    (ts : List String) × (tags_of_text
        (generate_tags_and_category (λ prompt. some "태그: 요리") stored).0
      ≡ ts)
    × (1 ≤ length ts)
    × (length ts ≤ 3)
    × All (λ t. in_words t available_tags ≡ true) ts
counted_tags_example = counted_tags (λ prompt. some "태그: 요리") stored
