-- ===== src/Chats/Sorted.antt =====
-- The order of the messages of a question: `ORDER BY created_at DESC` of src/chats/service.py.
use logit_be.Common.{
  ℕ, suc, ◌≡◌, refl, ap, ◌∙◌, Bool, true, false, ◌⊎◌, inl, inr, Bool-cases, List, [], ◌∷◌, length,
  where_rows, All, arith,
}
use mathlib.Core.List.{Perm}
use mathlib.Core.List.Perm
use logit_be.Clock.{DateTime, before}
use logit_be.Rows.Chat.{Chat}
use logit_be.Chats.History.{insert, newest_first}

pub before_asym : (a b : DateTime) → before a b ≡ true → before b a ≡ false
unfolding before
before_asym a b h = ground arith

before_trans : (a b c : DateTime) → before a b ≡ true → before b c ≡ true → before a c ≡ true
unfolding before
before_trans a b c h k = ground arith

-- Every message is newer than those after it.
abbrev pub IsDescending : List Chat → Type 0
IsDescending [] = Unit
IsDescending (c ∷ cs) =
    All (λ (x : Chat). before x.created_at c.created_at ≡ true) cs × IsDescending cs

-- No two messages were made at one instant.
abbrev pub IsApart : Chat → Chat → Type 0
IsApart c x = (before c.created_at x.created_at ≡ true) ⊎ (before x.created_at c.created_at ≡ true)

abbrev pub AreApart : List Chat → Type 0
AreApart [] = Unit
AreApart (c ∷ cs) = All (λ (x : Chat). IsApart c x) cs × AreApart cs

module _ (P : Chat → Type 0) where
  All-insert : (c : Chat) (cs : List Chat) → P c → All P cs → All P (insert c cs)
  All-insert c [] p h = (p, tt)
  All-insert c (x ∷ xs) p h = elim (Bool-cases (before c.created_at x.created_at)) [
    | inl a ↦ rw a (h.0, All-insert c xs p h.1)
    | inr a ↦ rw a (p, h)
  ]

  pub All-newest_first : (cs : List Chat) → All P cs → All P (newest_first cs)
  All-newest_first [] h = tt
  All-newest_first (c ∷ cs) h = All-insert c (newest_first cs) h.0 (All-newest_first cs h.1)

-- Older than a message that is older than another one.
All-older :
    (x c : Chat) (cs : List Chat)
    → before x.created_at c.created_at ≡ true
    → All (λ (y : Chat). before y.created_at x.created_at ≡ true) cs
    → All (λ (y : Chat). before y.created_at c.created_at ≡ true) cs
All-older x c [] b h = tt
All-older x c (y ∷ ys) b h =
    (before_trans y.created_at x.created_at c.created_at h.0 b, All-older x c ys b h.1)

older_of :
    (c x : Chat)
    → before c.created_at x.created_at ≡ false
    → IsApart c x
    → before x.created_at c.created_at ≡ true
older_of c x a (inl b) = absurd (ground (arith, a, b))
older_of c x a (inr b) = b

insert-IsDescending :
    (c : Chat) (cs : List Chat)
    → All (λ (x : Chat). IsApart c x) cs
    → IsDescending cs
    → IsDescending (insert c cs)
insert-IsDescending c [] o h = (tt, tt)
insert-IsDescending c (x ∷ xs) o h = elim (Bool-cases (before c.created_at x.created_at)) [
  | inl a ↦ rw a (
    All-insert (λ (y : Chat). before y.created_at x.created_at ≡ true) c xs a h.0,
    insert-IsDescending c xs o.1 h.1,
  )
  | inr a ↦ let b = older_of c x a o.0 in rw a ((b, All-older x c xs b h.0), h)
]

pub newest_first-IsDescending : (cs : List Chat) → AreApart cs → IsDescending (newest_first cs)
newest_first-IsDescending [] h = tt
newest_first-IsDescending (c ∷ cs) h =
    insert-IsDescending c (newest_first cs) (All-newest_first (λ (x : Chat). IsApart c x) cs h.0)
      (newest_first-IsDescending cs h.1)

insert_newest :
    (c : Chat) (cs : List Chat)
    → All (λ (x : Chat). before x.created_at c.created_at ≡ true) cs
    → insert c cs ≡ c ∷ cs
insert_newest c [] h = refl
insert_newest c (x ∷ xs) h = rw (before_asym x.created_at c.created_at h.0) refl

module _ (f : Chat → Bool) where
  All-where_rows : (P : Chat → Type 0) (cs : List Chat) → All P cs → All P (where_rows f cs)
  All-where_rows P [] h = tt
  All-where_rows P (c ∷ cs) h = elim (Bool-cases (f c)) [
    | inl a ↦ rw a (h.0, All-where_rows P cs h.1)
    | inr a ↦ rw a (All-where_rows P cs h.1)
  ]

  insert-where_rows :
      (c : Chat) (cs : List Chat)
      → f c ≡ true
      → All (λ (x : Chat). IsApart c x) cs
      → IsDescending cs
      → insert c (where_rows f cs) ≡ where_rows f (insert c cs)
  insert-where_rows c [] t o h = rw t refl
  insert-where_rows c (x ∷ xs) t o h = elim (Bool-cases (before c.created_at x.created_at)) [
    | inl a ↦ elim (Bool-cases (f x)) [
      | inl b ↦ rw (a, b) rw a (ap (λ (ys : List Chat). x ∷ ys) (insert-where_rows c xs t o.1 h.1))
      | inr b ↦ rw (a, b) (insert-where_rows c xs t o.1 h.1)
    ]
    | inr a ↦
        let b = older_of c x a o.0 in
        let newest =
          All-where_rows (λ (y : Chat). before y.created_at c.created_at ≡ true) (x ∷ xs)
            (b, All-older x c xs b h.0) in
        insert_newest c (where_rows f (x ∷ xs)) newest ∙ rw (a, t) refl
  ]

  where_rows-insert :
      (c : Chat) (cs : List Chat) → f c ≡ false → where_rows f cs ≡ where_rows f (insert c cs)
  where_rows-insert c [] t = rw t refl
  where_rows-insert c (x ∷ xs) t = elim (Bool-cases (before c.created_at x.created_at)) [
    | inl a ↦ rw a rw (where_rows-insert c xs t) refl
    | inr a ↦ rw (a, t) refl
  ]

  -- A selection of rows is sorted as it stands in the sorted rows.
  pub newest_first-where_rows :
      (cs : List Chat)
      → AreApart cs
      → newest_first (where_rows f cs) ≡ where_rows f (newest_first cs)
  newest_first-where_rows [] h = refl
  newest_first-where_rows (c ∷ cs) h =
      let rest = newest_first-where_rows cs h.1 in
      elim (Bool-cases (f c)) [
        | inl t ↦ rw t (
            ap (λ (ys : List Chat). insert c ys) rest
            ∙ insert-where_rows c (newest_first cs) t
                (All-newest_first (λ (x : Chat). IsApart c x) cs h.0)
                (newest_first-IsDescending cs h.1))
        | inr t ↦ rw t (rest ∙ where_rows-insert c (newest_first cs) t)
      ]

insert-Perm : (c : Chat) (cs : List Chat) → Perm (insert c cs) (c ∷ cs)
insert-Perm c [] = Perm.refl (c ∷ [])
insert-Perm c (x ∷ xs) = elim (Bool-cases (before c.created_at x.created_at)) [
  | inl a ↦ rw a (Perm.trans (Perm.cons x (insert-Perm c xs)) (Perm.swap c x xs))
  | inr a ↦ rw a (Perm.refl (c ∷ x ∷ xs))
]

pub newest_first-Perm : (cs : List Chat) → Perm (newest_first cs) cs
newest_first-Perm [] = Perm.refl []
newest_first-Perm (c ∷ cs) =
    Perm.trans (insert-Perm c (newest_first cs)) (Perm.cons c (newest_first-Perm cs))

length-insert : (c : Chat) (cs : List Chat) → length (insert c cs) ≡ suc (length cs)
length-insert c [] = refl
length-insert c (x ∷ xs) = ground (arith, length-insert c xs)

pub length-newest_first : (cs : List Chat) → length (newest_first cs) ≡ length cs
length-newest_first [] = refl
length-newest_first (c ∷ cs) =
    length-insert c (newest_first cs) ∙ ap (λ (n : ℕ). suc n) (length-newest_first cs)
