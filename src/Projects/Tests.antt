-- ===== src/Projects/Tests.antt =====
-- Runs of the projects on a small database, and their theorem at that input.
use logit_be.Common.{◌≤◌, refl, some, none, List, [], ◌∷◌, arith}
use logit_be.Clock.{DateTime}
use logit_be.Rows.Project.{Project, Question}
use logit_be.World.{World, fresh, empty_db}
use logit_be.Projects.{QuestionCreate, new_question, new_project}
use logit_be.Projects.Questions.{IsKeyed, live_count}
use logit_be.Projects.Lists.{row_of, Shows}
use logit_be.Projects.Last.{Request, add, remove, discard, serve, keeps_a_question}

abbrev noon : DateTime
noon = record { year = 2025; month = 7; day = 15; clock = 43200000000 }

abbrev asked : QuestionCreate
asked = record { question = "Why?"; max_length = some 500 }

-- A question of user 7 in project 1.
abbrev question : Question
question = new_question 1 7 2 asked 1 noon

abbrev world : World
world = fresh record empty_db { questions = question ∷ [] }

world-IsKeyed : IsKeyed world.db
world-IsKeyed = record { at_id = λ i. ground arith }

abbrev requests : List Request
requests = remove 2 1 7 noon ∷ add 1 7 3 asked noon ∷ discard 1 7 noon ∷ []

abbrev project : Project
project =
    new_project 1 7
      (record {
        company = "Acme";
        job_position = "dev";
        recruit_notice = "";
        company_talent = none;
        due_date = none;
        questions = [];
      })
      noon

keeps_a_question_example :
    IsKeyed (serve requests world).db
    × (1 ≤ live_count 1 7 (serve requests world).db)
    × Shows (row_of (serve requests world).db project)
keeps_a_question_example =
    keeps_a_question requests world project 7 refl world-IsKeyed (omega arith)
