-- ===== src/Experience/Listing.antt =====
-- A page of `list_experiences` is a part of the whole list.
use logit_be.Common.{
  ℕ, zero, suc, ◌+◌, ◌≤◌, min, leb, ◌≡◌, refl, sym, ap, ◌∙◌, subst, true, false, Option, some,
  String, List, [], ◌∷◌, length, take, drop, All, arith, inl, inr, Bool-cases,
}
use logit_be.World.Action.{ok}
use logit_be.Experience.{Experience}
use logit_be.Experience.Client.{QdrantClient, answered}
use logit_be.Experience.Store.{is_valid, payloads, slice, list_page, list_experiences}
use logit_be.Experience.Laws.{IsQdrant}

module _ {A : Type 0} where
  drop-take : (o l n : ℕ) (xs : List A) → o + l ≡ n → drop o (take n xs) ≡ take l (drop o xs)
  drop-take zero l n xs h = ap (λ (m : ℕ). take m xs) (omega (arith, h))
  drop-take (suc o) l zero xs h = absurd (omega (arith, h))
  drop-take (suc o) zero (suc n) [] h = refl
  drop-take (suc o) (suc l) (suc n) [] h = refl
  drop-take (suc o) l (suc n) (x ∷ xs) h = drop-take o l n xs (omega (arith, h))

  pub take_all : (n : ℕ) (xs : List A) → length xs ≤ n → take n xs ≡ xs
  take_all zero [] h = refl
  take_all zero (x ∷ xs) h = absurd (omega (arith, h))
  take_all (suc n) [] h = refl
  take_all (suc n) (x ∷ xs) h = ap (λ ys. x ∷ ys) (take_all n xs (omega (arith, h)))

  take_twice : (n : ℕ) (xs : List A) → take n (take n xs) ≡ take n xs
  take_twice zero xs = refl
  take_twice (suc n) [] = refl
  take_twice (suc n) (x ∷ xs) = ap (λ ys. x ∷ ys) (take_twice n xs)

  take-min : (n : ℕ) (xs : List A) → take n (take (min n (length xs)) xs) ≡ take n xs
  take-min n xs = elim (Bool-cases (leb n (length xs))) [
    | inl a ↦ rw (min_left n (length xs) a) (take_twice n xs)
    | inr a ↦ rw (min_right n (length xs) a) (ap (take n) (take_all (length xs) xs (omega arith)))
  ]
    where
      min_left : (a b : ℕ) → leb a b ≡ true → min a b ≡ a
      min_left a b h = ground arith

      min_right : (a b : ℕ) → leb a b ≡ false → min a b ≡ b
      min_right a b h = ground arith

  drop_all : (n : ℕ) (xs : List A) → length xs ≤ n → drop n xs ≡ []
  drop_all zero [] h = refl
  drop_all zero (x ∷ xs) h = absurd (omega (arith, h))
  drop_all (suc n) [] h = refl
  drop_all (suc n) (x ∷ xs) h = drop_all n xs (omega (arith, h))

  All-take : (P : A → Type 0) (n : ℕ) (xs : List A) → All P xs → All P (take n xs)
  All-take P zero xs h = tt
  All-take P (suc n) [] h = tt
  All-take P (suc n) (x ∷ xs) h = (h.0, All-take P n xs h.1)

  take_nil : (n : ℕ) (xs : List A) → xs ≡ [] → take n xs ≡ []
  take_nil zero xs h = refl
  take_nil (suc n) xs h = rw h refl

module _ {C V S : Type 0} (q : QdrantClient C V S) where
  pub payloads_ok :
      (es : List Experience)
      → All (λ (e : Experience). is_valid e ≡ true) es
      → payloads q es ≡ ok es
  payloads_ok [] h = refl
  payloads_ok (e ∷ es) h = rw (h.0, payloads_ok es h.1) refl

module _ {C V S : Type 0} (q : QdrantClient C V S) (stored : C → String → Option Experience)
    (newest : C → String → List Experience) (laws : IsQdrant q stored newest) where
  -- The slice of what is fetched.
  fetched :
      (limit offset : ℕ) (xs : List Experience)
      → slice q offset limit (take (min (limit + offset) (length xs)) xs)
        ≡ take limit (drop offset xs)
  fetched limit offset xs =
      ap (drop offset) (
        ap (λ (n : ℕ). take n (take (min (limit + offset) (length xs)) xs)) (swap offset limit)
        ∙ take-min (limit + offset) xs
        ∙ ap (λ (n : ℕ). take n xs) (swap limit offset))
      ∙ drop-take offset limit (offset + limit) xs refl
    where
      swap : (a b : ℕ) → a + b ≡ b + a
      swap a b = omega arith

  page :
      (u : String) (limit offset n : ℕ) (c : C) (es : List Experience)
      → All (λ (e : Experience). is_valid e ≡ true) (newest c u)
      → n ≡ length (newest c u)
      → q.scroll_newest u (min (limit + offset) n) c ≡ answered es
      → es ≡ take (min (limit + offset) n) (newest c u)
      → list_page q u limit offset c n
        ≡ ok (take limit (drop offset (newest c u)), length (newest c u))
  page u limit offset n c es v k s f = elim (Bool-cases (leb n offset)) [
    | inl past ↦
        rw (past, k, drop_all offset (newest c u) (short past), take_nil limit [] refl) refl
    | inr within ↦
        rw (within, s, converted)
          (ap (λ (p : List Experience × ℕ). ok p) (pair (ap (slice q offset limit) f ∙ at_total) k))
  ]
    where
      IsReadable : Experience → Type 0
      IsReadable e = is_valid e ≡ true

      converted : payloads q es ≡ ok es
      converted = payloads_ok q es (
          subst (λ (xs : List Experience). All IsReadable xs) (sym f)
            (All-take IsReadable (min (limit + offset) n) (newest c u) v))

      short : leb n offset ≡ true → length (newest c u) ≤ offset
      short h = rw (sym k) ground (arith, h)

      at_total :
          slice q offset limit (take (min (limit + offset) n) (newest c u))
          ≡ take limit (drop offset (newest c u))
      at_total = rw k (fetched limit offset (newest c u))

      pair :
          {a b : List Experience} {m l : ℕ}
          → a ≡ b
          → m ≡ l
          → Path (List Experience × ℕ) (a, m) (b, l)
      pair {b = b} {m = m} h i = ap (λ x. (x, m)) h ∙ ap (λ y. (b, y)) i

  -- Where all that is stored can be read and the two calls are answered, a page of a user is the part
  -- of the user's experiences, the newest first, from `offset` on and of at most `limit`, with
  -- their number; also where the page is past the end.
  pub list_is_page :
      (u : String) (limit offset n : ℕ) (c : C) (es : List Experience)
      → ((id : String) (e : Experience) → stored c id ≡ some e → is_valid e ≡ true)
      → q.count u c ≡ answered n
      → q.scroll_newest u (min (limit + offset) n) c ≡ answered es
      → list_experiences q u limit offset c
        ≡ ok (take limit (drop offset (newest c u)), length (newest c u))
  unfolding list_experiences
  list_is_page u limit offset n c es v k s = rw k (
      page u limit offset n c es (laws.newest_stored (λ (e : Experience). is_valid e ≡ true) u c v)
        (laws.count u c n k) s (laws.scroll_newest u (min (limit + offset) n) c es s))
