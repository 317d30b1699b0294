-- ===== src/Experience/Client.antt =====
-- What src/experience/service.py and src/report/service.py call: the client of Qdrant, on a collection
-- of type `C`, and OpenAI, with embeddings of type `V`; and what the services make of a failed call.
use logit_be.Common.{◌≡◌, refl, ap, arith, ℕ, Option, String, List}
use logit_be.World.Action.{Result, ok, raised, http_error}
use logit_be.Experience.{Experience}

-- The reply of a call of Qdrant: an answer, `UnexpectedResponse`, or another exception.
pub data Reply {ℓ} (A : Type ℓ) : Type ℓ where
  answered : A → Reply A
  unexpected_response : Reply A
  failed : Reply A

-- The calls, each with the filter of a user or the id of a point: `retrieve`, `count`, `scroll` ordered by
-- `created_at` descending with a limit, `scroll` with a limit and an offset, `query_points` with a limit,
-- `upsert`, `set_payload` and `delete`. A score is a number of type `S`.
pub record QdrantClient (C V S : Type 0) : Type 0 where
  pub retrieve : String → C → Reply (List Experience)
  pub count : String → C → Reply ℕ
  pub scroll_newest : String → ℕ → C → Reply (List Experience)
  pub scroll : String → ℕ → Option String → C → Reply (List Experience × Option String)
  pub query_points : String → V → ℕ → C → Reply (List (Experience × S))
  pub upsert : String → V → Experience → C → Reply (Unit {0}) × C
  pub set_payload : String → Experience → C → Reply (Unit {0}) × C
  pub delete : String → C → Reply (Unit {0}) × C

-- The reply of `embeddings.create`: a vector, or one of the exceptions that are told apart.
pub data EmbeddingReply (V : Type 0) : Type 0 where
  embedding : V → EmbeddingReply V
  authentication_error rate_limit_error api_connection_error : EmbeddingReply V
  api_error unexpected_error : EmbeddingReply V

-- OpenAI: the embedding of a text, and the text that a prompt is answered with.
pub record OpenAi (V : Type 0) : Type 0 where
  pub embeddings : String → EmbeddingReply V
  pub completions : String → Option String

infixl 5 ◌>>=◌
abbrev pub ◌>>=◌ : {A B : Type 0} → Result A → (A → Result B) → Result B
◌>>=◌ (ok a) f = f a
◌>>=◌ (raised x) f = raised x

-- `except UnexpectedResponse` and `except Exception` around a call of Qdrant.
abbrev pub or_503 : {A : Type 0} → Reply A → Result A
or_503 (answered a) = ok a
or_503 unexpected_response = raised (http_error 503)
or_503 failed = raised (http_error 500)

unfoldable pub generate_embedding : {V : Type 0} → EmbeddingReply V → Result V
generate_embedding (embedding v) = ok v
generate_embedding authentication_error = raised (http_error 500)
generate_embedding rate_limit_error = raised (http_error 429)
generate_embedding api_connection_error = raised (http_error 503)
generate_embedding api_error = raised (http_error 500)
generate_embedding unexpected_error = raised (http_error 500)

-- A chain of steps that ends well has taken each of them.
pub bind_ok :
    {A B : Type 0} (m : Result A) (f : A → Result B) (b : B)
    → m >>= f ≡ ok b
    → (a : A) × (m ≡ ok a) × (f a ≡ ok b)
bind_ok (ok a) f b h = (a, refl, h)
bind_ok (raised x) f b h = absurd (ground arith)

pub ok_inj : {A : Type 0} {a b : A} → ok a ≡ ok b → a ≡ b
ok_inj {A = A} {a = a} h = ap (λ (r : Result A). elim r [ ok x ↦ x | raised y ↦ a ]) h
