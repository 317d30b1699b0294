-- ===== src/Auth/KnownKeys.antt =====
-- A key that the search finds is one that the provider published.
use logit_be.Common.{
  ℕ, ◌≡◌, refl, ◌∙◌, Bool, true, false, not, ◌&&◌, Option, none, some, String, arith, Bool-cases,
  inl, inr,
}
use logit_be.World.Action.{Result, ok, raised}
use logit_be.Auth.Jwks.{
  KeyData, KeySet, no_fields, keys, Reply, answered, refused, failed, Cache, Attempt, usable,
  is_fresh, fetched, get_from, get_jwks, key_in, found_or_401, found_or_retry, first_search,
  second_search, find_jwks_key, kept_or_400, loaded,
}

module _ {K : Type 0} where
  usable_held : (o : Option (KeySet K)) (h : KeySet K) → usable o ≡ some h → o ≡ some h
  usable_held none h e = absurd (ground arith)
  usable_held (some no_fields) h e = absurd (ground arith)
  usable_held (some (keys ks)) h e = e

  -- The set was held, or came with a reply.
  data IsFrom (c : Cache K) (r : Reply (KeySet K)) (s : KeySet K) : Type 0 where
    was_held : c.held ≡ some s → IsFrom c r s
    came : r ≡ answered s → IsFrom c r s

  kept : (o : Option (KeySet K)) (s : KeySet K) → kept_or_400 (usable o) ≡ ok s → o ≡ some s
  kept none s e = absurd (ground arith)
  kept (some no_fields) s e = absurd (ground arith)
  kept (some (keys ks)) s e = ground arith

  -- The set that is answered, and the one that is held then.
  record IsSound (c : Cache K) (r : Reply (KeySet K)) (p : Result (KeySet K) × Cache K)
      : Type 0 where
    answer : (s : KeySet K) → p.0 ≡ ok s → IsFrom c r s
    holding : (s : KeySet K) → p.1.held ≡ some s → IsFrom c r s

  fetched-IsSound : (t : ℕ) (c : Cache K) (r : Reply (KeySet K)) → IsSound c r (fetched t c r)
  fetched-IsSound t c (answered a) = record {
    answer = λ s e. came (ground arith);
    holding = λ s e. came (ground arith);
  }
  fetched-IsSound t c refused = record {
    answer = λ s e. was_held (kept c.held s e);
    holding = λ s e. was_held e;
  }
  fetched-IsSound t c failed = record {
    answer = λ s e. absurd (ground arith);
    holding = λ s e. was_held e;
  }

  get_from-IsSound :
      (b : Bool) (a : Attempt K) (c : Cache K) (o : Option (KeySet K))
      → usable c.held ≡ o
      → IsSound c a.reply (get_from b a c o)
  get_from-IsSound b a c none u = fetched-IsSound a.now c a.reply
  get_from-IsSound b a c (some h) u = elim (Bool-cases (not b && is_fresh a.now c)) [
    | inl f ↦ rw f record {
      answer = λ s e. was_held (usable_held c.held s (u ∙ ground arith));
      holding = λ s e. was_held e;
    }
    | inr f ↦ rw f (fetched-IsSound a.now c a.reply)
  ]

  get_jwks-IsSound : (b : Bool) (a : Attempt K) (c : Cache K) → IsSound c a.reply (get_jwks b a c)
  unfolding get_jwks
  get_jwks-IsSound b a c = get_from-IsSound b a c (usable c.held) refl

  -- A set that the cache held, or that the provider answered to one of two calls.
  pub data IsPublished (c : Cache K) (first again : Attempt K) (s : KeySet K) : Type 0 where
    held_before : c.held ≡ some s → IsPublished c first again s
    at_first : first.reply ≡ answered s → IsPublished c first again s
    at_again : again.reply ≡ answered s → IsPublished c first again s

  -- A key that such a set has under the id.
  pub record IsKnown (kid : Option String) (c : Cache K) (first again : Attempt K) (key : K)
      : Type 0 where
    pub set : KeySet K
    pub data_of_key : KeyData K
    pub published : IsPublished c first again set
    pub found : key_in kid set ≡ some data_of_key
    pub loads : data_of_key.key ≡ some key

  loads_of : (o : Option K) (key : K) → loaded o ≡ ok key → o ≡ some key
  loads_of none key e = absurd (ground arith)
  loads_of (some k) key e = ground arith

  module _ (c : Cache K) (first again : Attempt K) where
    at_start : (s : KeySet K) → IsFrom c first.reply s → IsPublished c first again s
    at_start s (was_held e) = held_before e
    at_start s (came e) = at_first e

    at_end :
        (p : Result (KeySet K) × Cache K) (s : KeySet K)
        → IsSound c first.reply p
        → IsFrom p.1 again.reply s
        → IsPublished c first again s
    at_end p s h (was_held e) = at_start s (h.holding s e)
    at_end p s h (came e) = at_again e

    found-IsKnown :
        (kid : Option String) (s : KeySet K) (o : Option (KeyData K)) (key : K)
        → IsPublished c first again s
        → key_in kid s ≡ o
        → found_or_401 o ≡ ok key
        → IsKnown kid c first again key
    found-IsKnown kid s none key p f e = absurd (ground arith)
    found-IsKnown kid s (some d) key p f e = record {
      set = s;
      data_of_key = d;
      published = p;
      found = f;
      loads = loads_of d.key key e;
    }

    second-IsKnown :
        (kid : Option String) (p : Result (KeySet K) × Cache K) (key : K)
        → ((s : KeySet K) → p.0 ≡ ok s → IsPublished c first again s)
        → (second_search kid p).0 ≡ ok key
        → IsKnown kid c first again key
    second-IsKnown kid (raised x, c') key h e = absurd (ground arith)
    second-IsKnown kid (ok s, c') key h e = found-IsKnown kid s (key_in kid s) key (h s refl) refl e

    first-IsKnown :
        (kid : Option String) (p : Result (KeySet K) × Cache K) (s : KeySet K)
        (o : Option (KeyData K)) (key : K)
        → IsSound c first.reply p
        → p.0 ≡ ok s
        → key_in kid s ≡ o
        → (found_or_retry kid again p.1 o).0 ≡ ok key
        → IsKnown kid c first again key
    first-IsKnown kid p s none key h q f e =
        second-IsKnown kid (get_jwks true again p.1) key
          (λ s' e'. at_end p s' h ((get_jwks-IsSound true again p.1).answer s' e')) e
    first-IsKnown kid p s (some d) key h q f e =
        found-IsKnown kid s (some d) key (at_start s (h.answer s q)) f e

    start-IsKnown :
        (kid : Option String) (p : Result (KeySet K) × Cache K) (key : K)
        → IsSound c first.reply p
        → (first_search kid again p).0 ≡ ok key
        → IsKnown kid c first again key
    start-IsKnown kid (raised x, c') key h e = absurd (ground arith)
    start-IsKnown kid (ok s, c') key h e =
        first-IsKnown kid (ok s, c') s (key_in kid s) key h refl refl e

    pub find_jwks_key-IsKnown :
        (kid : Option String) (key : K)
        → (find_jwks_key kid first again c).0 ≡ ok key
        → IsKnown kid c first again key
    unfolding find_jwks_key
    find_jwks_key-IsKnown kid key e =
        start-IsKnown kid (get_jwks false first c) key (get_jwks-IsSound false first c) e
