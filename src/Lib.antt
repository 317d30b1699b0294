-- ===== src/Lib.antt =====
-- The backend of Logit: a verification of the services under src/.
--
-- A service function is a Python coroutine that works on a database session, Redis and PayApp. The
-- model makes it an action (World/Action.antt): a function from a world to a result and the world
-- after, where a raised exception keeps what was written before it. World.antt says what a world
-- is: the tables as the request's session shows them, the tables as committed, the keys of Redis,
-- and the calls made to PayApp.
--
-- Which file models which part:
-- - Common: names that all share, Python's integers, lists of rows.
-- - Clock: `datetime` and `calendar`, in UTC; Clock/Order its order as an order of numbers.
-- - Rows: the tables of src/*/models.py, one file for each package.
-- - Text: Python's texts, `int`, `UUID` and `split` on them. Config: the settings of src/config.py.
-- - Subscription: src/subscription/service.py and `create_mcp_token` of src/security.py;
--   Subscription/Access proves. Subscription/Usage: src/subscription/usage.py, on counters of its own,
--   Subscription/Limits proves, and Subscription/Expiry when the computed end of a period has passed
--   before the period ends.
-- - Payment: src/payment/service.py. Payment.antt has the helpers, Payment/Webhook the webhook of
--   PayApp, Payment/Manage what users and operators ask; PayApp's reply to a request is an argument,
--   and the requests made are logged in the world. Payment/Forgery, Activation, Repeats and Secrets
--   prove about the webhook, Refund, Cancellation and Start about the rest.
-- - Tokens: src/tokens/service.py and src/tokens/constants.py. Tokens.antt has the operations on a
--   balance, Tokens/Monthly the grant of a billing period, Tokens/Attendance the daily check-in,
--   Tokens/Balance the endpoint of src/tokens/router.py;
--   the modules below them prove.
-- - Referral: src/users/referral.py and `apply_referral` of src/users/router.py; Referral/Once proves.
-- - Chats: src/chats/service.py and `send_chat` of src/chats/router.py. Chats.antt has the message that is
--   charged and answered, Chats/Stream what src/chats/llm_service.py streams, Chats/Relay how it is
--   relayed, Chats/Cost proves what it costs; Chats/History has the pages of the history, Chats/Sorted
--   and Pages prove; Chats/Materials and Prompt have what a language model is given, Chats/Own proves.
-- - Auth: the log in, renewal and log out of src/auth/service.py and src/auth/router.py, the queries of
--   src/users/service.py, src/users/dependencies.py, and the tokens of src/security.py; Auth/Web has the
--   states and codes of a web login, Auth/Jwks the key sets of Google and Apple and the search for a key,
--   Auth/Providers the checks of what the providers answer, Auth/Flows the logins from there to the
--   account, and Auth/Users the changes of a profile. Auth/Sessions, Rotation, Accounts, Exchange,
--   KnownKeys, Vouched, Nonces, AppleWeb and Emails prove.
-- - Projects: src/projects/service.py and src/questions/service.py. Projects/Lists has their lists,
--   Projects/Questions and Removal what each request keeps, Projects/Last proves.
-- - Experience: src/experience/service.py and src/experience/models.py. Experience.antt has what a change
--   makes of an experience, Experience/Category the types, categories and tags, Tags what is asked of a
--   language model and read from its answer, Client the calls of Qdrant and OpenAI, which are parameters,
--   Store the requests. Laws has what the proofs assume of Qdrant, Memory a collection with these laws;
--   Score and Match have the scores of a question. Update, Owner, Valid, Listing, Lifecycle, Blocked,
--   Labels, Ranking, Matching and Bounds prove.
-- - Report: src/report/service.py and the summary of src/report/router.py; Report/Summary, Counts and Tags
--   prove. Text/Words and Text/Joined: `strip`, `split` and `join`.
-- A definition has the name of the function, in snake_case without a leading underscore
-- (`_record_transaction` is `record_transaction`); the branches of a function that a match needs
-- apart are helpers beside it.
--
-- UUIDs are numbers. An instant that a function reads from the clock is an argument. Loops run over
-- lists but for four on fuel: `slices` of a draft with its length, `follow` of a client of the
-- history with one more than the messages, `remove_word` of a text with its length, and `scroll_all` of a
-- report with the number of pages; each is enough, as a step takes at least one.
--
-- Redis forgets a state of a login after 300 seconds and a code after 60, which steps of time (`elapse` of
-- World.antt) count down, and a usage counter at the instant that the EXPIRE of its last use sets; the keys
-- of the attendance are not removed.
--
-- A session shows its own writes, so a flush is not a step but where it fails (`fail_flush` of
-- World/Action.antt), which leaves a session that is of no use until it is rolled back; constraints of
-- the database other than the unique keys and the not-null text of a question and email of a user are
-- not modelled.
--
-- Not modelled: the HTTP layer (FastAPI routers but those above, cookies, and Pydantic schemas),
-- logging, row locks and the interleaving of two requests, what Google, Apple, PyJWT, Qdrant and the
-- language models do (their answers are arguments), and the migrations.
pub mod Common
pub mod Clock
pub mod Rows
pub mod World
pub mod Auth
pub mod Chats
pub mod Config
pub mod Experience
pub mod Payment
pub mod Projects
pub mod Referral
pub mod Report
pub mod Subscription
pub mod Text
pub mod Tokens
