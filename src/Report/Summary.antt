-- ===== src/Report/Summary.antt =====
-- The summary of a user's experiences counts all of them, however many pages there are.
use logit_be.Common.{
  ℕ, zero, suc, ◌≤◌, ◌≡◌, refl, sym, ap, ◌∙◌, true, Option, none, some, String, List, [], ◌∷◌, ◌++◌,
  map, length, All, arith,
}
use mathlib.Core.List.{append_assoc, append-nil}
use logit_be.World.Action.{ok}
use logit_be.Experience.{Experience}
use logit_be.Experience.Client.{answered, QdrantClient}
use logit_be.Experience.Store.{is_valid}
use logit_be.Experience.Listing.{payloads_ok}
use logit_be.Report.{
  Aggregates, aggregate, type_name, category_name, all_tags, scroll_all, ordered,
  get_all_user_experiences, get_experience_aggregates, get_experience_summary,
}
use logit_be.Report.Counts.{IsCount, counter-IsCount}

abbrev pub joined : List (List Experience) → List Experience
joined [] = []
joined (p ∷ ps) = p ++ joined ps

-- A summary of these experiences.
pub record IsSummary (es : List Experience) (a : Aggregates) : Type 0 where
  pub types : IsCount (map type_name es) a.type_counts
  pub categories : IsCount (map category_name es) a.category_counts
  pub tags : IsCount (all_tags es) a.tag_counts
  pub all : a.total ≡ length es

ordered-IsSummary :
    {C V S : Type 0} (q : QdrantClient C V S) (es : List Experience)
    → IsSummary es (ordered q (aggregate es))
unfolding aggregate ordered
ordered-IsSummary q es = record {
  types = counter-IsCount (map type_name es);
  categories = counter-IsCount (map category_name es);
  tags = counter-IsCount (all_tags es);
  all = refl;
}

module _ {C V S : Type 0} (q : QdrantClient C V S) where
  -- The pages that Qdrant answers from an offset on: each but the last with the offset of the next.
  abbrev pub Pages : String → C → Option String → List (List Experience) → Type 0
  Pages u c offset [] = ⊥
  Pages u c offset (p ∷ []) = q.scroll u 10000 offset c ≡ answered (p, none)
  Pages u c offset (p ∷ r ∷ ps) =
      (next : String) × (q.scroll u 10000 offset c ≡ answered (p, some next))
      × Pages u c (some next) (r ∷ ps)

  scroll_whole :
      (n : ℕ) (u : String) (c : C) (points : List Experience) (offset : Option String)
      (ps : List (List Experience))
      → length ps ≤ n
      → Pages u c offset ps
      → scroll_all q n u points offset c ≡ some (answered (points ++ joined ps))
  unfolding scroll_all
  scroll_whole n u c points offset [] l h = absurd h
  scroll_whole zero u c points offset (p ∷ ps) l h = absurd (omega (arith, l))
  scroll_whole (suc n) u c points offset (p ∷ []) l h =
      rw h (ap (λ xs. some (answered (points ++ xs))) (sym (append-nil p)))
  scroll_whole (suc n) u c points offset (p ∷ r ∷ ps) l h = rw h.1 (
      scroll_whole n u c (points ++ p) (some h.0) (r ∷ ps) (omega (arith, l)) h.2
      ∙ ap (λ xs. some (answered xs)) (append_assoc points p (joined (r ∷ ps))))

  -- Where Qdrant answers every page, with payloads that can be read, the summary is found in as many
  -- turns of the loop as there are pages. It counts every experience of every page once by its type
  -- and its category and once for each of its tags: each key that occurs has one entry with the number of
  -- its occurrences, the largest counts first.
  pub whole_report :
      (n : ℕ) (u : String) (c : C) (ps : List (List Experience))
      → length ps ≤ n
      → Pages u c none ps
      → All (λ (e : Experience). is_valid e ≡ true) (joined ps)
      → (a : Aggregates) × (get_experience_summary q n u c ≡ some (ok a)) × IsSummary (joined ps) a
  unfolding get_experience_summary get_experience_aggregates get_all_user_experiences
  whole_report n u c ps l h v = (
    ordered q (aggregate (joined ps)),
    rw (scroll_whole n u c [] none ps l h, payloads_ok q (joined ps) v) refl,
    ordered-IsSummary q (joined ps),
  )
