-- ===== src/Rows.antt =====
-- The rows of the database tables, one module for each `models.py`. A row leaves out its random
-- `id` and its `created_at` where no service reads them; the key of a table that is a function of
-- its primary or unique key is not repeated in the row.
pub mod Token
pub mod Subscription
pub mod Payment
pub mod User
pub mod Project
pub mod Chat
