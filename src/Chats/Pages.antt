-- ===== src/Chats/Pages.antt =====
-- A client that follows the cursors is shown the whole history of a question.
use logit_be.Common.{
  ℕ, zero, suc, ◌≤◌, ◌<◌, ltb, lt→ltb, le→ltb, ltb→lt, ltb→le, ◌≡◌, refl, sym, ap, ◌∙◌, subst, true,
  false, Option, none, some, List, [], ◌∷◌, ◌++◌, length, where_rows, take, All, arith, inl, inr,
  Bool-cases,
}
use mathlib.Core.List.{Perm, reverse, reverse-append, append_assoc}
use logit_be.Clock.{DateTime, before}
use logit_be.Chats.Sorted.{
  IsDescending, AreApart, before_asym, newest_first-IsDescending, newest_first-where_rows,
  newest_first-Perm, length-newest_first, All-newest_first,
}
use logit_be.Rows.Chat.{Chat}
use logit_be.World.{Db}
use logit_be.Chats.History.{
  newest_first, older, after_cursor, at_cursor, of_question, get_chat, Page, page_of, get_page,
}

ltb_irrefl : (n : ℕ) → ltb n n ≡ false
ltb_irrefl n = ground arith

before_irrefl : (a : DateTime) → before a a ≡ false
unfolding before
before_irrefl a = ground arith

-- Older than a message are those after it.
where_rows-older :
    (c : Chat) (cs : List Chat)
    → All (λ (x : Chat). before x.created_at c.created_at ≡ true) cs
    → where_rows (older c) cs ≡ cs
where_rows-older c [] h = refl
where_rows-older c (x ∷ xs) h = rw h.0 (ap (λ (ys : List Chat). x ∷ ys) (where_rows-older c xs h.1))

module _ (P : Chat → Type 0) where
  All-at : (pre : List Chat) (c : Chat) (post : List Chat) → All P (pre ++ c ∷ post) → P c
  All-at [] c post h = h.0
  All-at (a ∷ pre) c post h = All-at pre c post h.1

-- What is older than a message of a descending list is what follows it.
older_rest :
    (pre : List Chat) (c : Chat) (post : List Chat)
    → IsDescending (pre ++ c ∷ post)
    → where_rows (older c) (pre ++ c ∷ post) ≡ post
older_rest [] c post h =
    rw (before_irrefl c.created_at, ltb_irrefl c.id) (where_rows-older c post h.0)
older_rest (a ∷ pre) c post h =
    let newer = All-at (λ (x : Chat). before x.created_at a.created_at ≡ true) pre c post h.0 in
    rw (before_asym c.created_at a.created_at newer, newer) (older_rest pre c post h.1)

IsDescending-rest :
    (pre : List Chat) (c : Chat) (post : List Chat)
    → IsDescending (pre ++ c ∷ post)
    → IsDescending post
IsDescending-rest [] c post h = h.1
IsDescending-rest (a ∷ pre) c post h = IsDescending-rest pre c post h.1

take_all : (n : ℕ) (xs : List Chat) → length xs ≤ n → take n xs ≡ xs
take_all zero [] h = refl
take_all zero (x ∷ xs) h = absurd (omega (arith, h))
take_all (suc n) [] h = refl
take_all (suc n) (x ∷ xs) h = ap (λ (ys : List Chat). x ∷ ys) (take_all n xs (omega (arith, h)))

-- A list that is longer than a page: the page, of which `last` is the oldest, and the rest.
record Cut (n : ℕ) (xs : List Chat) : Type 0 where
  pre : List Chat
  last : Chat
  post : List Chat
  whole : xs ≡ pre ++ last ∷ post
  page : take (suc n) (take (suc (suc n)) xs) ≡ pre ++ last ∷ []
  longer : length (take (suc (suc n)) xs) ≡ suc (suc n)
  shorter : length post < length xs

cut : (n : ℕ) (xs : List Chat) → suc n < length xs → Cut n xs
cut n [] h = absurd (omega (arith, h))
cut zero (x ∷ []) h = absurd (omega (arith, h))
cut zero (x ∷ y ∷ ys) h = record {
  pre = [];
  last = x;
  post = y ∷ ys;
  whole = refl;
  page = refl;
  longer = refl;
  shorter = omega arith;
}
cut (suc n) (x ∷ xs) h =
    let c = cut n xs (omega (arith, h)) in
    let cons : List Chat → List Chat = λ ys. x ∷ ys in
    record {
      pre = x ∷ c.pre;
      last = c.last;
      post = c.post;
      whole = ap cons c.whole;
      page = ap cons c.page;
      longer = omega (arith, c.longer);
      shorter = omega (arith, c.shorter);
    }

-- The pages of a client that begins at a cursor and follows `next_cursor`, joined: at most `n` of them.
abbrev pub follow : ℕ → ℕ → Option ℕ → ℕ → Db → List Chat
follow zero q cursor size d = []
follow (suc n) q cursor size d =
    let p = get_page q cursor size d in
    elim p.next_cursor [ none ↦ p.chats | some c ↦ follow n q (some c) size d ++ p.chats ]

-- What is shown of some rows: their order reversed, where the newest comes first and each row once.
pub record IsHistory (rows shown : List Chat) : Type 0 where
  pub newest : List Chat
  pub each : Perm newest rows
  pub descending : IsDescending newest
  pub oldest_first : shown ≡ reverse newest

-- The last page, and another one.
last_page :
    (size : ℕ) (xs : List Chat)
    → length xs ≤ suc size
    → let p = page_of (suc size) (take (suc (suc size)) xs) in
      (p.chats ≡ reverse xs) × (p.next_cursor ≡ none)
last_page size xs h =
    rw (take_all (suc (suc size)) xs (omega (arith, h))) rw (le→ltb (suc size) (length xs) h)
      (refl, refl)

full_page :
    (size : ℕ) (xs : List Chat) (c : Cut size xs)
    → let p = page_of (suc size) (take (suc (suc size)) xs) in
      (p.chats ≡ reverse (c.pre ++ c.last ∷ [])) × (p.next_cursor ≡ some c.last.id)
full_page size xs c =
    let more : ltb (suc size) (length (take (suc (suc size)) xs)) ≡ true =
      rw c.longer (lt→ltb (suc size) (suc (suc size)) (omega arith)) in
    rw more rw c.page (refl, rw (reverse-append c.pre (c.last ∷ [])) refl)

-- What `follow` makes of a page.
abbrev join_page : ℕ → ℕ → ℕ → Db → Page → List Chat
join_page n q size d p = elim p.next_cursor [
  | none ↦ p.chats
  | some c ↦ follow n q (some c) size d ++ p.chats
]

join_last :
    (n q size : ℕ) (d : Db) (p : Page) → p.next_cursor ≡ none → join_page n q size d p ≡ p.chats
join_last n q size d p h = rw h refl

join_more :
    (n q size c : ℕ) (d : Db) (p : Page)
    → p.next_cursor ≡ some c
    → join_page n q size d p ≡ follow n q (some c) size d ++ p.chats
join_more n q size c d p h = rw h refl

-- The rows after the cursor of a page.
rows_after :
    (q : ℕ) (d : Db) (pre : List Chat) (c : Chat) (post : List Chat)
    → AreApart (of_question q d)
    → newest_first (of_question q d) ≡ pre ++ c ∷ post
    → get_chat c.id d ≡ some c
    → newest_first (after_cursor (at_cursor (some c.id) d) (of_question q d)) ≡ post
rows_after q d pre c post apart whole keyed =
    let desc : IsDescending (pre ++ c ∷ post) =
      subst (λ (xs : List Chat). IsDescending xs) whole
        (newest_first-IsDescending (of_question q d) apart) in
    rw keyed (
      newest_first-where_rows (older c) (of_question q d) apart
      ∙ ap (λ (xs : List Chat). where_rows (older c) xs) whole
      ∙ older_rest pre c post desc)

All-rest :
    (P : Chat → Type 0) (pre : List Chat) (c : Chat) (post : List Chat)
    → All P (pre ++ c ∷ post)
    → All P post
All-rest P [] c post h = h.1
All-rest P (a ∷ pre) c post h = All-rest P pre c post h.1

-- From a cursor after which the rows `xs` of the question are left.
follow_from :
    (n size q : ℕ) (cursor : Option ℕ) (d : Db) (pre xs : List Chat)
    → length xs < n
    → AreApart (of_question q d)
    → newest_first (of_question q d) ≡ pre ++ xs
    → newest_first (after_cursor (at_cursor cursor d) (of_question q d)) ≡ xs
    → All (λ (c : Chat). get_chat c.id d ≡ some c) xs
    → follow n q cursor (suc size) d ≡ reverse xs
unfolding get_page
follow_from zero size q cursor d pre xs fuel apart whole rows keyed = absurd (omega (arith, fuel))
follow_from (suc n) size q cursor d pre xs fuel apart whole rows keyed =
    let p = page_of (suc size) (take (suc (suc size)) xs) in
    ap
      (λ (ys : List Chat).
        join_page n q (suc size) d (page_of (suc size) (take (suc (suc size)) ys)))
      rows
    ∙ elim (Bool-cases (ltb (suc size) (length xs))) [
      | inl h ↦
          let c = cut size xs (ltb→lt (suc size) (length xs) h) in
          let full = full_page size xs c in
          let parts : newest_first (of_question q d) ≡ (pre ++ c.pre) ++ c.last ∷ c.post =
            whole
            ∙ ap (λ (ys : List Chat). pre ++ ys) c.whole
            ∙ sym (append_assoc pre c.pre (c.last ∷ c.post)) in
          let keyed' =
            subst (λ (ys : List Chat). All (λ (x : Chat). get_chat x.id d ≡ some x) ys) c.whole
              keyed in
          let at : get_chat c.last.id d ≡ some c.last =
            All-at (λ (x : Chat). get_chat x.id d ≡ some x) c.pre c.last c.post keyed' in
          let rest =
            follow_from n size q (some c.last.id) d ((pre ++ c.pre) ++ c.last ∷ []) c.post
              (omega (arith, fuel, c.shorter)) apart
              (parts ∙ sym (append_assoc (pre ++ c.pre) (c.last ∷ []) c.post))
              (rows_after q d (pre ++ c.pre) c.last c.post apart parts at)
              (All-rest (λ (x : Chat). get_chat x.id d ≡ some x) c.pre c.last c.post keyed') in
          join_more n q (suc size) c.last.id d p full.1
          ∙ rw full.0 rw rest (
              sym (reverse-append (c.pre ++ c.last ∷ []) c.post)
              ∙ ap (λ (ys : List Chat). reverse ys)
                  (append_assoc c.pre (c.last ∷ []) c.post ∙ sym c.whole))
      | inr h ↦
          let end = last_page size xs (ltb→le (suc size) (length xs) h) in
          join_last n q (suc size) d p end.1 ∙ end.0
    ]

-- A client that asks for the newest messages of a question and follows the cursors, with pages of any
-- size of at least one, has been shown each of its messages once, and the older ones first, when it has made
-- one request more than there are messages, where no two messages were made at one instant and each is
-- found by its id; the order of the stored rows does not matter.
pub follow-IsHistory :
    (size q : ℕ) (d : Db)
    → AreApart (of_question q d)
    → All (λ (c : Chat). get_chat c.id d ≡ some c) (of_question q d)
    → IsHistory (of_question q d) (follow (suc (length (of_question q d))) q none (suc size) d)
follow-IsHistory size q d apart keyed =
    let rows = of_question q d in
    record {
      newest = newest_first rows;
      each = newest_first-Perm rows;
      descending = newest_first-IsDescending rows apart;
      oldest_first =
          follow_from (suc (length rows)) size q none d [] (newest_first rows)
            (rw (length-newest_first rows) (omega arith)) apart refl refl
            (All-newest_first (λ (c : Chat). get_chat c.id d ≡ some c) rows keyed);
    }
