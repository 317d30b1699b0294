-- ===== src/Auth/EmailTests.antt =====
-- A change of the email on a small database, with the two logins after it.
use logit_be.Common.{◌≡◌, refl, true, false, none}
use logit_be.Rows.User.{google, apple}
use logit_be.Rows.Token.{signup_bonus_tokens}
use logit_be.World.{World}
use logit_be.World.Action.{ok}
use logit_be.Tokens.Ledger.{balance_of}
use logit_be.Auth.{Identity, login}
use logit_be.Auth.Accounts.{login_of}
use logit_be.Auth.Users.{changed, check_email, update_user}
use logit_be.Auth.Emails.{new_email, email_change_splits}
use logit_be.Auth.Tests.{keys, member, start, at_micro}

abbrev moved : World
moved = (update_user member (new_email "x@y.z" none) start).1

moves :
    update_user member (new_email "x@y.z" none) start
    ≡ (ok (changed (new_email "x@y.z" none) member), moved)
unfolding update_user check_email
moves = refl

-- Whoever has the new email at Apple.
abbrev stranger : Identity
stranger = record {
  provider = apple;
  provider_id = "a9";
  email = "x@y.z";
  name = none;
  fresh_id = 10;
}

-- The identity that the member signed up with.
abbrev member_again : Identity
member_again = record {
  provider = google;
  provider_id = "g";
  email = "a@b.c";
  name = none;
  fresh_id = 11;
}

email_change_splits_example :
    ((login keys stranger (at_micro 0) moved).0 ≡ ok (login_of keys 7 false (at_micro 0)))
    × ((login keys member_again (at_micro 0) moved).0 ≡ ok (login_of keys 11 true (at_micro 0)))
    × (balance_of (login keys member_again (at_micro 0) moved).1.db 11 ≡ signup_bonus_tokens)
email_change_splits_example =
    email_change_splits member "x@y.z" none (changed (new_email "x@y.z" none) member) start moved
      keys stranger member_again (at_micro 0) refl refl refl moves refl refl refl refl
