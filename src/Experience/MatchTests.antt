-- ===== src/Experience/MatchTests.antt =====
-- A question that an experience matches, with hundredths for floats, and the theorem at it.
use logit_be.Common.{ℕ, ◌+◌, ◌*◌, ◌/◌, ltb, none, some, List, [], ◌∷◌}
use logit_be.World.{Db, empty_db}
use logit_be.Experience.Client.{QdrantClient, OpenAi, answered, embedding}
use logit_be.Experience.Score.{Floats}
use logit_be.Experience.Tests.{stored}
use logit_be.Chats.Tests.{project, question}

abbrev hundredths : Floats ℕ
hundredths = record {
  ratio = λ n d. n * 100 / d;
  plus = λ a b. a + b;
  times = λ a b. a * b / 100;
  divide = λ a b. a * 100 / b;
  square = λ a. a * a / 100;
  root = λ a. a;
  less = ltb;
}

abbrev searching : QdrantClient ℕ (List ℕ) ℕ
searching = record {
  retrieve = λ id c. answered [];
  count = λ u c. answered 0;
  scroll_newest = λ u n c. answered [];
  scroll = λ u n offset c. answered ([], none);
  query_points = λ u v n c. answered ((stored, 60) ∷ []);
  upsert = λ id v e c. (answered tt, c);
  set_payload = λ id e c. (answered tt, c);
  delete = λ id c. (answered tt, c);
}

abbrev ai : OpenAi (List ℕ)
ai = record { embeddings = λ text. embedding (100 ∷ 50 ∷ []); completions = λ prompt. some "백엔드" }

abbrev tables : Db
tables = record empty_db { projects = project ∷ []; questions = question ∷ [] }
