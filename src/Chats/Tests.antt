-- ===== src/Chats/Tests.antt =====
-- Runs of the chats on a small database, and their theorems at those inputs.
use logit_be.Common.{inl, inr, ℕ, ◌+◌, ◌*◌, pos, refl, true, false, none, some, [], ◌∷◌}
use logit_be.Clock.{DateTime, before}
use logit_be.Rows.Token.{UserToken}
use logit_be.Rows.Project.{Project, Question}
use logit_be.World.{Db, World, fresh, empty_db}
use logit_be.Chats.{
  ping, content, Turn, user_row, assistant_row, send_chat_stream, get_question_by_id,
}
use logit_be.Chats.Stream.{Calls, generate_ai_response_stream}
use logit_be.Chats.History.{of_question}
use logit_be.Chats.Pages.{IsHistory, follow, follow-IsHistory}
use logit_be.Chats.Sorted.{AreApart}
use logit_be.Chats.Cost.{IsOpen, Settled, message_price, left_early}

abbrev at_second : ℕ → DateTime
at_second n = record { year = 2025; month = 7; day = 15; clock = 32400000000 + n * 1000000 }

abbrev pub project : Project
project = record {
  id = 1;
  user_id = 7;
  company = "Acme";
  job_position = "dev";
  recruit_notice = "";
  company_talent = none;
  due_date = none;
  created_at = at_second 0;
  updated_at = at_second 0;
  deleted_at = none;
}

abbrev pub question : Question
question = record {
  id = 2;
  project_id = 1;
  user_id = 7;
  question = "Why?";
  max_length = some 500;
  order = 1;
  answer = none;
  is_completed = false;
  created_at = at_second 0;
  updated_at = at_second 0;
  deleted_at = none;
}

abbrev token : UserToken
token = record {
  balance = pos 30;
  last_monthly_grant_at = none;
  signup_bonus_granted = true;
  unnotified_signup_bonus_amount = pos 0;
  unnotified_referral_amount = pos 0;
  unnotified_referral_count = 0;
  updated_at = at_second 0;
}

abbrev pub start : World
start = fresh record empty_db {
  user_tokens = λ u. some token;
  projects = project ∷ [];
  questions = question ∷ [];
}

abbrev pub turn : Turn
turn = record {
  user_id = 7;
  is_test_user = false;
  experience_ids = none;
  stamps = λ n. record { id = n; at = at_second n };
}

-- A draft of eleven letters.
abbrev drafting : Calls
drafting = record {
  classification = some (record { is_cover_letter_request = true; is_new_draft = true });
  chunks = [];
  breaks = false;
  draft = some "hello world";
}

start-IsOpen : IsOpen turn 2 question start.db
unfolding get_question_by_id
start-IsOpen = record { project = project; found = refl; own = refl; in_project = refl }

message_price_example :
    Settled 7
      (pos 10)
      (assistant_row turn question 1 "hello world" true ∷ user_row turn question "hi" ∷ [])
      start
      (send_chat_stream turn 2 "hi"
        (generate_ai_response_stream drafting (2 ∷ 0 ∷ 1 ∷ []))
        false
        (at_second 9)
        start).1
message_price_example =
    message_price turn 2 question "hi" (at_second 9) start drafting (2 ∷ 0 ∷ 1 ∷ []) refl refl
      start-IsOpen

left_early_example :
    Settled 7
      (pos 10)
      (user_row turn question "hi" ∷ [])
      start
      (send_chat_stream turn 2 "hi"
        (ping ∷ content "hel" ∷ content "lo" ∷ [])
        false
        (at_second 9)
        start).1
left_early_example =
    left_early turn 2 question "hi" (at_second 9) start (ping ∷ content "hel" ∷ content "lo" ∷ [])
      refl refl start-IsOpen refl

abbrev talked : Db
talked = record empty_db {
  chats =
      assistant_row turn question 2 "b" false
      ∷ assistant_row turn question 3 "c" false
      ∷ user_row turn question "a"
      ∷ [];
}

talked-AreApart : AreApart (of_question 2 talked)
unfolding before
talked-AreApart = ((inl refl, (inr refl, tt)), ((inr refl, tt), (tt, tt)))

-- Three messages, in pages of two.
follow-IsHistory_example : IsHistory (of_question 2 talked) (follow 4 2 none 2 talked)
follow-IsHistory_example = follow-IsHistory 1 2 talked talked-AreApart (refl, (refl, (refl, tt)))
