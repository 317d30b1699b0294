-- ===== src/Experience/Tests.antt =====
-- An update of an experience, and the theorem at that input.
use logit_be.Common.{◌≡◌, refl, false, Option, none, some, String, arith}
use logit_be.Clock.{DateTime}
use logit_be.Experience.Category.{intern, technical_proficiency}
use logit_be.Experience.{
  Field, star, free, situation, task, action, result, content, format_of, format_eq, Experience,
  ExperienceUpdate, fields_allowed, fields_complete, cleared, model_copy, update_to,
  update_experience,
}
use logit_be.Experience.Update.{IsComplete, HasNoNull, left_over, update-IsComplete}

abbrev pub noon : DateTime
noon = record { year = 2025; month = 7; day = 15; clock = 43200000000 }

abbrev pub story : Field → Option String
story situation = some "s"
story task = some "t"
story action = some "a"
story result = some "r"
story _ = none

abbrev pub stored : Experience
stored = record {
  id = "e1";
  user_id = "u1";
  title = some "Chatbot";
  start_date = some (record { year = 2024; month = 6; day = 1 });
  end_date = none;
  experience_type = some intern;
  format_type = some star;
  fields = story;
  category = technical_proficiency;
  tags = "백엔드";
  created_at = noon;
  updated_at = noon;
}

abbrev free_text : Field → Option (Option String)
free_text content = some (some "all of it")
free_text _ = none

-- The format is changed to free text.
abbrev pub to_free : ExperienceUpdate
to_free = record {
  title = none;
  start_date = none;
  end_date = none;
  experience_type = none;
  format_type = some (some free);
  fields = free_text;
}

stored-IsComplete : IsComplete stored
unfolding format_of
stored-IsComplete = record {
  format = star;
  has_format = refl;
  titled = refl;
  started = refl;
  typed = refl;
  texts = λ x p. ground arith;
}

to_free-HasNoNull : HasNoNull to_free
to_free-HasNoNull = record {
  title = refl;
  start_date = refl;
  experience_type = refl;
  format_type = refl;
  fields = λ x p. ground arith;
}

abbrev rewritten : Experience
rewritten = model_copy stored to_free (cleared star free_text) noon

update-IsComplete_example :
    IsComplete rewritten × ((x : Field) → left_over star to_free rewritten x ≡ false)
unfolding update_experience update_to fields_allowed fields_complete format_of format_eq
update-IsComplete_example =
    update-IsComplete star stored rewritten to_free noon stored-IsComplete refl to_free-HasNoNull
      refl
