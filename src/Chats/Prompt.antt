-- ===== src/Chats/Prompt.antt =====
-- src/chats/chat_history.py and the messages of a conversation in src/chats/llm_service.py.
use logit_be.Common.{ℕ, String, List, [], ◌∷◌, ◌++◌, map}
use mathlib.Core.List.{reverse}
use logit_be.Rows.Chat.{ChatRole, user, assistant, Chat}
use logit_be.World.{Db}
use logit_be.Chats.History.{newest_first, of_question}

pub data Message : Type 0 where
  human ai : String → Message

abbrev of_role : ChatRole → String → Message
of_role user text = human text
of_role assistant text = ai text

abbrev message_of : Chat → Message
message_of c = of_role c.role c.content

-- `aget_messages`; `ORDER BY created_at`
unfoldable pub aget_messages : ℕ → Db → List Message
aget_messages question_id d = map message_of (reverse (newest_first (of_question question_id d)))

-- What follows the system prompt: the history, which is loaded when the message is saved already, and
-- the message.
unfoldable pub conversation_messages : ℕ → String → Db → List Message
conversation_messages question_id text d = aget_messages question_id d ++ human text ∷ []
