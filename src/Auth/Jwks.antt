-- ===== src/Auth/Jwks.antt =====
-- The key sets of Google and Apple in src/auth/service.py, with their cache. An instant of
-- `time.monotonic` is a number of microseconds; a key of type `K` is what `PyJWK` makes of its data.
use logit_be.Common.{
  ℕ, ◌-◌, ltb, Bool, true, false, not, ◌&&◌, Option, none, some, String, List, str_eq, first_row,
  if◌then◌else◌,
}
use logit_be.World.Action.{Result, ok, raised, http_error, external}

-- The data of a key: `PyJWK` raises where it makes no key of it.
pub record KeyData (K : Type 0) : Type 0 where
  pub kid : Option String
  pub key : Option K

-- The JSON of a key set, which Python takes for false where it has no field at all.
pub data KeySet (K : Type 0) : Type 0 where
  no_fields : KeySet K
  keys : List (KeyData K) → KeySet K

-- What a call of httpx gives: the body of a 200, another status, or an exception.
pub data Reply (A : Type 0) : Type 0 where
  answered : A → Reply A
  refused failed : Reply A

-- `_apple_jwks_cache` and `_apple_jwks_fetched_at`, or Google's.
pub record Cache (K : Type 0) : Type 0 where
  pub held : Option (KeySet K)
  pub fetched_at : ℕ

-- A possible call: its instant and its reply.
pub record Attempt (K : Type 0) : Type 0 where
  pub now : ℕ
  pub reply : Reply (KeySet K)

abbrev pub jwks_cache_ttl : ℕ
jwks_cache_ttl = 3600000000

abbrev pub same_kid : Option String → Option String → Bool
same_kid none none = true
same_kid (some a) (some b) = str_eq a b
same_kid _ _ = false

module _ {K : Type 0} where
  -- The set that is held, if Python takes it for true.
  abbrev pub usable : Option (KeySet K) → Option (KeySet K)
  usable none = none
  usable (some no_fields) = none
  usable (some (keys ks)) = some (keys ks)

  -- What the cache answers without a call.
  abbrev pub is_fresh : ℕ → Cache K → Bool
  is_fresh now c = ltb (now - c.fetched_at) jwks_cache_ttl

  abbrev pub kept_or_400 : Option (KeySet K) → Result (KeySet K)
  kept_or_400 none = raised (http_error 400)
  kept_or_400 (some s) = ok s

  -- What a reply at an instant makes of the cache.
  abbrev pub fetched : ℕ → Cache K → Reply (KeySet K) → Result (KeySet K) × Cache K
  fetched now c (answered s) = (ok s, record { held = some s; fetched_at = now })
  fetched now c refused = (kept_or_400 (usable c.held), c)
  fetched now c failed = (raised external, c)

  -- From the set that is held, if it is usable.
  abbrev pub get_from : Bool → Attempt K → Cache K → Option (KeySet K) → Result (KeySet K) × Cache K
  get_from force_refresh a c none = fetched a.now c a.reply
  get_from force_refresh a c (some s) =
      if not force_refresh && is_fresh a.now c then (ok s, c) else fetched a.now c a.reply

  -- `_get_google_jwks` and `_get_apple_jwks`
  unfoldable pub get_jwks : Bool → Attempt K → Cache K → Result (KeySet K) × Cache K
  get_jwks force_refresh a c = get_from force_refresh a c (usable c.held)

  -- The first key data with the id.
  abbrev pub key_in : Option String → KeySet K → Option (KeyData K)
  key_in kid no_fields = none
  key_in kid (keys ks) = first_row (λ (d : KeyData K). same_kid d.kid kid) ks

  -- `PyJWK(key_data)`
  abbrev pub loaded : Option K → Result K
  loaded none = raised external
  loaded (some k) = ok k

  abbrev pub found_or_401 : Option (KeyData K) → Result K
  found_or_401 none = raised (http_error 401)
  found_or_401 (some d) = loaded d.key

  -- The search in the set of the forced refresh.
  abbrev pub second_search : Option String → Result (KeySet K) × Cache K → Result K × Cache K
  second_search kid (raised x, c) = (raised x, c)
  second_search kid (ok s, c) = (found_or_401 (key_in kid s), c)

  abbrev pub found_or_retry :
      Option String → Attempt K → Cache K → Option (KeyData K) → Result K × Cache K
  found_or_retry kid again c none = second_search kid (get_jwks true again c)
  found_or_retry kid again c (some d) = (loaded d.key, c)

  abbrev pub first_search :
      Option String → Attempt K → Result (KeySet K) × Cache K → Result K × Cache K
  first_search kid again (raised x, c) = (raised x, c)
  first_search kid again (ok s, c) = found_or_retry kid again c (key_in kid s)

  -- `_find_jwks_key`
  unfoldable pub find_jwks_key :
      Option String → Attempt K → Attempt K → Cache K → Result K × Cache K
  find_jwks_key kid first again c = first_search kid again (get_jwks false first c)
