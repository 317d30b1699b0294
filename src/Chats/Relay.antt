-- ===== src/Chats/Relay.antt =====
-- How the loop of `send_chat_stream` goes through a stream that does not raise.
use Prim.Native.String.{◌++◌ as str_append}
use text.Mathlib.TextLemmas.{append_assoc, append-nil}
use logit_be.Common.{
  ℕ, ◌+◌, ℤ, pos, ◌-ℤ◌, ◌≡◌, refl, ap, ◌∙◌, Bool, true, false, Option, some, String, List, [], ◌∷◌,
  ◌++◌, if◌then◌else◌, arith,
}
use logit_be.Clock.{DateTime}
use logit_be.Rows.Token.{chat_refund}
use logit_be.Rows.Project.{Question}
use logit_be.World.{World}
use logit_be.World.Action.{Action, Result, ok, raised, pure, try, Exception, ◌>>=◌}
use logit_be.Tokens.{credit}
use logit_be.Chats.Stream.{is_quiet, spoken}
use logit_be.Chats.{
  Chunk, ping, error, content, done, SseEvent, Turn, assistant_row, create_assistant_chat,
  refund_prededuction, settle_cost, finish, relay,
}

emit_world :
    (e : SseEvent) (m : Action (List SseEvent)) (w : World)
    → ((m >>= λ es. pure (e ∷ es)) w).1 ≡ (m w).1
emit_world e m w = ground arith

module _ (t : Turn) (q : Question) (pre : Option ℤ) (now : DateTime) where
  -- Relaying a quiet stretch changes nothing but the answer so far.
  pub relay_quiet :
      (cs ds : List Chunk) (n : ℕ) (text : String) (w : World)
      → is_quiet cs ≡ true
      → (relay t q pre now false (cs ++ ds) n text w).1
        ≡ (relay t q pre now false ds n (str_append text (spoken cs)) w).1
  unfolding relay
  relay_quiet [] ds n text w h = rw (append-nil text) refl
  relay_quiet (ping ∷ cs) ds n text w h =
      emit_world ping (relay t q pre now false (cs ++ ds) n text) w ∙ relay_quiet cs ds n text w h
  relay_quiet (content c ∷ cs) ds n text w h =
      emit_world (content c) (relay t q pre now false (cs ++ ds) n (str_append text c)) w
      ∙ relay_quiet cs ds n (str_append text c) w h
      ∙ ap (λ (s : String). (relay t q pre now false ds n s w).1) (append_assoc text c (spoken cs))
  relay_quiet (error ∷ cs) ds n text w h = grind arith
  relay_quiet (done b ∷ cs) ds n text w h = grind arith

  pub relay_pings :
      (cs : List Chunk) (n : ℕ) (text : String) (w : World)
      → is_quiet cs ≡ true
      → (relay t q pre now false cs n text w).1 ≡ w
  unfolding relay
  relay_pings [] n text w h = refl
  relay_pings (ping ∷ cs) n text w h =
      emit_world ping (relay t q pre now false cs n text) w ∙ relay_pings cs n text w h
  relay_pings (content c ∷ cs) n text w h =
      emit_world (content c) (relay t q pre now false cs n (str_append text c)) w
      ∙ relay_pings cs n (str_append text c) w h
  relay_pings (error ∷ cs) n text w h = grind arith
  relay_pings (done b ∷ cs) n text w h = grind arith

  -- What a `done` and an `error` leave.
  abbrev pub answered : ℕ → String → Bool → World → World
  answered n text b w =
      let w1 =
        if b
        then w
        else (credit t.user_id (pos 5) chat_refund (some "채팅 비용 조정 (선차감 차액 환불)") now w).1 in
      let d = record w1.db { chats = assistant_row t q n text b ∷ w1.db.chats } in
      record w1 { db = d; committed = d }

  abbrev pub refunded : World → World
  refunded w =
      let w1 = (credit t.user_id (pos 10) chat_refund (some "AI 오류 전액 환불") now w).1 in
      record w1 { committed = w1.db }

  pub relay_done :
      (cs : List Chunk) (n : ℕ) (text : String) (b : Bool) (w : World)
      → t.is_test_user ≡ false
      → is_quiet cs ≡ true
      → (relay t q pre now false (done b ∷ cs) n text w).1 ≡ answered n text b w
  unfolding relay finish settle_cost create_assistant_chat credit ◌-ℤ◌
  relay_done cs n text true w live h =
      ground (arith, relay_pings cs (n + 1) text (answered n text true w) h)
  relay_done cs n text false w live h =
      ground (arith, relay_pings cs (n + 1) text (answered n text false w) h)

  pub relay_error :
      (cs : List Chunk) (n : ℕ) (text : String) (w : World)
      → t.is_test_user ≡ false
      → is_quiet cs ≡ true
      → (relay t q pre now false (error ∷ cs) n text w).1 ≡ refunded w
  unfolding relay refund_prededuction credit
  relay_error cs n text w live h = ground (arith, relay_pings cs n text (refunded w) h)

abbrev pub returns {ℓ} : {A : Type ℓ} → Result A → Bool
returns (ok a) = true
returns (raised e) = false

emit-returns :
    (e : SseEvent) (m : Action (List SseEvent)) (w : World)
    → returns (m w).0 ≡ true
    → returns ((m >>= λ es. pure (e ∷ es)) w).0 ≡ true
emit-returns e m w h = ground arith

pub try-returns :
    (m : Action (List SseEvent)) (k : Exception → Action (List SseEvent)) (w : World)
    → returns (m w).0 ≡ true
    → (try m k w).1 ≡ (m w).1
try-returns m k w h = ground arith

-- A stream that does not raise is relayed without a raise.
pub relay-returns :
    (t : Turn) (q : Question) (pre : Option ℤ) (now : DateTime) (cs : List Chunk) (n : ℕ)
    (text : String) (w : World)
    → returns (relay t q pre now false cs n text w).0 ≡ true
unfolding relay finish settle_cost create_assistant_chat credit refund_prededuction ◌-ℤ◌
relay-returns t q pre now [] n text w = refl
relay-returns t q pre now (ping ∷ cs) n text w =
    emit-returns ping (relay t q pre now false cs n text) w (relay-returns t q pre now cs n text w)
relay-returns t q pre now (content c ∷ cs) n text w =
    emit-returns (content c) (relay t q pre now false cs n (str_append text c)) w
      (relay-returns t q pre now cs n (str_append text c) w)
relay-returns t q pre now (error ∷ cs) n text w =
    ground (arith, relay-returns t q pre now cs n text (refund_prededuction t now w).1)
relay-returns t q pre now (done true ∷ cs) n text w =
    ground (arith, relay-returns t q pre now cs (n + 1) text (finish t q pre n text true now w).1)
relay-returns t q pre now (done false ∷ cs) n text w =
    ground (arith, relay-returns t q pre now cs (n + 1) text (finish t q pre n text false now w).1)
