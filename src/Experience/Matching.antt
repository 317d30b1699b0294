-- ===== src/Experience/Matching.antt =====
-- The experiences that match a question of the user.
use logit_be.Common.{ℕ, ◌≡◌, Option, String, List}
use logit_be.Rows.Project.{Project, Question}
use logit_be.World.{Db}
use logit_be.World.Action.{Result, ok}
use logit_be.Experience.{Experience}
use logit_be.Experience.Client.{QdrantClient, OpenAi, answered}
use logit_be.Experience.Tags.{extract_tags_from_question, extract_category_from_question}
use logit_be.Experience.Score.{Floats}
use logit_be.Experience.Match.{
  ranked, query_embedding, uuid_of, own_question, own_project, question_tags_prompt,
  question_category_prompt, project_info,
}
use logit_be.Experience.Ranking.{IsRanking}

module _ {C S : Type 0} (num : Floats S) (q : QdrantClient C (List S) S)
    (ai : OpenAi (List S)) where
  -- The tags and the category that the language model gives for a question of a project.
  abbrev pub question_tags : Question → Project → List String
  question_tags question project =
      extract_tags_from_question
        (ai.completions (question_tags_prompt question.question (project_info project)))

  abbrev pub question_category : Question → Project → Option String
  question_category question project =
      extract_category_from_question
        (ai.completions (question_category_prompt question.question (project_info project)))

  -- The answer for a question: from the points that Qdrant finds for the vector of a live question of the
  -- user and its live project, each of them once with its score by the question's tags and category, the
  -- best first.
  pub record IsMatch (d : Db) (user_id : String) (question_id : ℕ) (c : C)
      (results : List (Experience × S)) : Type 0 where
    pub user : ℕ
    pub is_user : uuid_of user_id ≡ ok user
    pub question : Question
    pub project : Project
    pub owned : own_question user question_id d ≡ ok question
    pub in_project : own_project user question.project_id d ≡ ok project
    pub vector : List S
    pub of_question : query_embedding num q ai question project ≡ ok vector
    pub points : List (Experience × S)
    pub found : q.query_points user_id vector 10000 c ≡ answered points
    pub answer :
        IsRanking num q ai
          (question_tags question project)
          (question_category question project)
          points
          results

  -- The search with the vector, for a question of a project.
  abbrev rank : Question → Project → List (Experience × S) → Result (List (Experience × S))
  rank question project points =
      ranked num q ai (question_tags question project) (question_category question project) points
