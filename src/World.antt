-- ===== src/World.antt =====
-- What a request reads and writes: its database session (src/database.py), Redis, and the calls it
-- made to PayApp; and the requests themselves, as actions that change it and may raise.
--
-- A session shows the request its own writes (`db`), flushed or not, and the next request only
-- what was committed (`committed`). Two requests are two actions, one after the other: the row
-- locks that keep them apart are not modelled. A table whose rows are found by a primary or unique
-- key is a function of that key; another is a list of rows, the newest first.
pub mod Action
use logit_be.Common.{
  ℕ, ℤ, Bool, false, Option, none, some, String, List, [], ◌==◌, ◌-◌, ltb, if◌then◌else◌,
}
use logit_be.Clock.{Date}
use logit_be.Rows.Token.{UserToken, TokenTransaction, AttendanceLog}
use logit_be.Rows.Subscription.{Subscription, SubscriptionType, type_eq}
use logit_be.Rows.Payment.{PaymentRecord, SubscriptionEvent, Plan}
use logit_be.Rows.User.{User}
use logit_be.Rows.Project.{Project, Question}
use logit_be.Rows.Chat.{Chat}

pub record Db : Type 0 where
  pub user_tokens : ℕ → Option UserToken
  pub token_transactions : List TokenTransaction
  pub attendance_logs : List AttendanceLog
  pub subscriptions : ℕ → SubscriptionType → Option Subscription
  pub payment_records : List PaymentRecord
  pub subscription_events : List SubscriptionEvent
  pub plans : String → Option Plan
  pub users : List User
  pub projects : List Project
  pub questions : List Question
  pub chats : List Chat

-- What a login answers.
pub record Login : Type 0 where
  pub is_new_user : Bool
  pub access_token : String
  pub refresh_token : String

-- A value that Redis was told to keep for some seconds (`ex`), with those that are left.
pub record Kept (A : Type 0) : Type 0 where
  pub value : A
  pub seconds : ℕ

abbrev pub value_of : {A : Type 0} → Option (Kept A) → Option A
value_of none = none
value_of (some k) = some k.value

-- What is left of it after `n` seconds.
abbrev pub left_after : {A : Type 0} → ℕ → Option (Kept A) → Option (Kept A)
left_after n none = none
left_after n (some k) =
    if ltb n k.seconds then some (record k { seconds = k.seconds - n }) else none

-- The keys `attendance:pool_remaining`, `attendance:event_ended` and `attendance:{user}:{day}`, and
-- `oauth:state:{state}` and `oauth:temp:{code}` of the login. A key of attendance is kept for 25
-- hours, which is past the end of its day; that it is removed afterwards is not modelled. A key of
-- the login has its seconds to live, which `elapse` counts down.
pub record Redis : Type 0 where
  pub pool_remaining : Option ℤ
  pub event_ended : Bool
  pub checked_in : ℕ → Date → Bool
  pub oauth_states : String → Option (Kept String)
  pub temp_codes : String → Option (Kept Login)

-- The requests of src/payment/payapp.py: `cancel_rebill` by rebill_no, `cancel_payment` by mul_no,
-- `register_rebill` by user, plan key, price and cycle day.
pub data PayAppCall : Type 0 where
  cancel_rebill cancel_payment : String → PayAppCall
  register_rebill : ℕ → String → ℤ → Option ℕ → PayAppCall

pub record World : Type 0 where
  pub db : Db
  pub committed : Db
  pub redis : Redis
  pub calls : List PayAppCall
  -- a flush has failed, and the session was not rolled back since
  pub session_failed : Bool

-- A write of the row with key `k`.
abbrev pub put {ℓ} : {A : Type ℓ} → ℕ → A → (ℕ → Option A) → ℕ → Option A
put k a t j = if j == k then some a else t j

abbrev pub put_subscription :
    ℕ
    → SubscriptionType
    → Subscription
    → (ℕ → SubscriptionType → Option Subscription)
    → ℕ
    → SubscriptionType
    → Option Subscription
put_subscription u k s t v j = if v == u then (if type_eq j k then some s else t v j) else t v j

abbrev pub empty_db : Db
empty_db = record {
  user_tokens = λ u. none;
  token_transactions = [];
  attendance_logs = [];
  subscriptions = λ u k. none;
  payment_records = [];
  subscription_events = [];
  plans = λ k. none;
  users = [];
  projects = [];
  questions = [];
  chats = [];
}

abbrev pub empty_redis : Redis
empty_redis = record {
  pool_remaining = none;
  event_ended = false;
  checked_in = λ u d. false;
  oauth_states = λ k. none;
  temp_codes = λ k. none;
}

-- `n` seconds go by.
abbrev pub elapse : ℕ → World → World
elapse n w =
    let r = w.redis in
    record w {
      redis = record r {
        oauth_states = λ s. left_after n (r.oauth_states s);
        temp_codes = λ c. left_after n (r.temp_codes c);
      };
    }

-- A world where all is committed.
abbrev pub fresh : Db → World
fresh d = record { db = d; committed = d; redis = empty_redis; calls = []; session_failed = false }
