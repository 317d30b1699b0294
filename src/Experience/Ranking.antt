-- ===== src/Experience/Ranking.antt =====
-- The order of the scored experiences: all of them, the best first, and no score above 1.
use logit_be.Common.{
  ℕ, ◌+◌, ◌≡◌, refl, sym, ap, ◌∙◌, subst, true, false, Option, String, List, [], ◌∷◌, map, All,
  arith, inl, inr, Bool-cases,
}
use logit_be.World.Action.{ok}
use logit_be.Experience.{Experience}
use logit_be.Experience.Client.{QdrantClient, OpenAi, ◌>>=◌, bind_ok, ok_inj}
use logit_be.Experience.Store.{from_payload, scored_payloads}
use logit_be.Experience.Clean.{from_payload-valid}
use logit_be.Experience.Score.{Floats, lesser, final_score}
use logit_be.Experience.Match.{rescored, insert_scored, best_first, ranked}

-- What holds of the comparison of floats, other than of NaN.
pub record IsOrder {S : Type 0} (num : Floats S) : Type 0 where
  pub irrefl : (a : S) → num.less a a ≡ false
  pub asym : (a b : S) → num.less a b ≡ true → num.less b a ≡ false
  pub trans : (a b c : S) → num.less a b ≡ false → num.less b c ≡ false → num.less a c ≡ false

-- A sum over a list.
abbrev pub total : {A : Type 0} → (A → ℕ) → List A → ℕ
total f [] = 0
total f (x ∷ xs) = f x + total f xs

module _ {C S : Type 0} (num : Floats S) (q : QdrantClient C (List S) S)
    (ai : OpenAi (List S)) where
  abbrev pub IsRanked : List (Experience × S) → Type 0
  IsRanked [] = Unit
  IsRanked (x ∷ xs) = All (λ (y : Experience × S). num.less x.1 y.1 ≡ false) xs × IsRanked xs

  total-insert_scored :
      (f : Experience × S → ℕ) (x : Experience × S) (xs : List (Experience × S))
      → total f (insert_scored num q ai x xs) ≡ f x + total f xs
  total-insert_scored f x [] = refl
  total-insert_scored f x (y ∷ ys) = elim (Bool-cases (num.less x.1 y.1)) [
    | inl a ↦ rw a omega (arith, total-insert_scored f x ys)
    | inr a ↦ rw a refl
  ]

  total-best_first :
      (f : Experience × S → ℕ) (xs : List (Experience × S))
      → total f (best_first num q ai xs) ≡ total f xs
  total-best_first f [] = refl
  total-best_first f (x ∷ xs) =
      omega (arith, total-insert_scored f x (best_first num q ai xs), total-best_first f xs)

  All-insert_scored :
      (P : Experience × S → Type 0) (x : Experience × S) (xs : List (Experience × S))
      → P x
      → All P xs
      → All P (insert_scored num q ai x xs)
  All-insert_scored P x [] p h = (p, tt)
  All-insert_scored P x (y ∷ ys) p h = elim (Bool-cases (num.less x.1 y.1)) [
    | inl a ↦ rw a (h.0, All-insert_scored P x ys p h.1)
    | inr a ↦ rw a (p, h)
  ]

  All-best_first :
      (P : Experience × S → Type 0) (xs : List (Experience × S))
      → All P xs
      → All P (best_first num q ai xs)
  All-best_first P [] h = tt
  All-best_first P (x ∷ xs) h =
      All-insert_scored P x (best_first num q ai xs) h.0 (All-best_first P xs h.1)

  no_better :
      IsOrder num
      → (a b : S) (ys : List (Experience × S)) → num.less a b ≡ false
      → All (λ (y : Experience × S). num.less b y.1 ≡ false) ys
      → All (λ (y : Experience × S). num.less a y.1 ≡ false) ys
  no_better o a b [] h k = tt
  no_better o a b (y ∷ ys) h k = (o.trans a b y.1 h k.0, no_better o a b ys h k.1)

  insert_scored-IsRanked :
      IsOrder num
      → (x : Experience × S) (xs : List (Experience × S)) → IsRanked xs
      → IsRanked (insert_scored num q ai x xs)
  insert_scored-IsRanked o x [] h = (tt, tt)
  insert_scored-IsRanked o x (y ∷ ys) h = elim (Bool-cases (num.less x.1 y.1)) [
    | inl a ↦ rw a (
      All-insert_scored (λ (z : Experience × S). num.less y.1 z.1 ≡ false) x ys (o.asym x.1 y.1 a)
          h.0,
      insert_scored-IsRanked o x ys h.1,
    )
    | inr a ↦ rw a ((a, no_better o x.1 y.1 ys a h.0), h)
  ]

  best_first-IsRanked :
      IsOrder num → (xs : List (Experience × S)) → IsRanked (best_first num q ai xs)
  best_first-IsRanked o [] = tt
  best_first-IsRanked o (x ∷ xs) =
      insert_scored-IsRanked o x (best_first num q ai xs) (best_first-IsRanked o xs)

  -- A score is the lesser of something and 1.
  at_most_one :
      IsOrder num
      → (base : S) (tags : ℕ × ℕ) (category quality : ℕ)
      → num.less (num.ratio 1 1) (final_score num base tags category quality) ≡ false
  unfolding final_score
  at_most_one o base tags category quality = lesser_least _
    where
      lesser_least : (a : S) → num.less (num.ratio 1 1) (lesser num a (num.ratio 1 1)) ≡ false
      lesser_least a = elim (Bool-cases (num.less (num.ratio 1 1) a)) [
        | inl h ↦ rw h (o.irrefl (num.ratio 1 1))
        | inr h ↦ rw h h
      ]

  rescored_at_most :
      IsOrder num
      → (tags : List String) (category : Option String) (xs : List (Experience × S))
      → All
          (λ (y : Experience × S). num.less (num.ratio 1 1) y.1 ≡ false)
          (map (rescored num q ai tags category) xs)
  rescored_at_most o tags category [] = tt
  rescored_at_most o tags category (x ∷ xs) =
      (at_most_one o _ _ _ _, rescored_at_most o tags category xs)

  scored_payloads-same : (xs ys : List (Experience × S)) → scored_payloads q xs ≡ ok ys → xs ≡ ys
  scored_payloads-same [] ys h = ok_inj h
  scored_payloads-same ((e, s) ∷ xs) ys h =
      let p =
        bind_ok (from_payload e) (λ e'. scored_payloads q xs >>= λ rest. ok ((e', s) ∷ rest)) ys
          h in
      let r = bind_ok (scored_payloads q xs) (λ rest. ok ((p.0, s) ∷ rest)) ys p.2 in
      ap (λ zs. (e, s) ∷ zs) (scored_payloads-same xs r.0 r.1)
      ∙ ap (λ (y : Experience). (y, s) ∷ r.0) (sym (from_payload-valid e p.0 p.1).0)
      ∙ ok_inj r.2

  -- The points with their new scores: each once, the best first, and no score above 1.
  pub record IsRanking (tags : List String) (category : Option String)
      (points results : List (Experience × S)) : Type 0 where
    pub each_once :
        (f : Experience × S → ℕ)
        → total f results ≡ total f (map (rescored num q ai tags category) points)
    pub ranking : IsRanked results
    pub at_most : All (λ (y : Experience × S). num.less (num.ratio 1 1) y.1 ≡ false) results

  best_first-IsRanking :
      IsOrder num
      → (tags : List String) (category : Option String) (points : List (Experience × S))
      → IsRanking tags category points
          (best_first num q ai (map (rescored num q ai tags category) points))
  best_first-IsRanking o tags category points =
      let scored = map (rescored num q ai tags category) points in
      record {
        each_once = λ f. total-best_first f scored;
        ranking = best_first-IsRanked o scored;
        at_most =
            All-best_first (λ (y : Experience × S). num.less (num.ratio 1 1) y.1 ≡ false) scored
              (rescored_at_most o tags category points);
      }

  pub ranked-IsRanking :
      IsOrder num
      → (tags : List String) (category : Option String) (points results : List (Experience × S))
      → ranked num q ai tags category points ≡ ok results
      → IsRanking tags category points results
  ranked-IsRanking o tags category points results h =
      let score : List (Experience × S) → List (Experience × S) =
        λ es. best_first num q ai (map (rescored num q ai tags category) es) in
      let g = bind_ok (scored_payloads q points) (λ es. ok (score es)) results h in
      subst (λ rs. IsRanking tags category points rs)
        (ap score (scored_payloads-same points g.0 g.1) ∙ ok_inj g.2)
        (best_first-IsRanking o tags category points)
