-- ===== src/Report/Counts.antt =====
-- What a `Counter` and its sorted entries count.
use logit_be.Common.{
  ℕ, suc, ◌+◌, ◌≤◌, ltb, false, ◌≡◌, refl, sym, ◌∙◌, String, List, [], ◌∷◌, str_eq, length, All,
  if◌then◌else◌, arith, inl, inr, Bool-cases, eq_iff, ltb→lt, ltb→le,
}
use logit_be.Report.{Counts, add_key, counter_from, counter, insert_count, most_first}

-- How often a key occurs in a list, what is counted for it, and what is counted in all.
abbrev pub occurrences : String → List String → ℕ
occurrences k [] = 0
occurrences k (x ∷ xs) = (if str_eq x k then 1 else 0) + occurrences k xs

abbrev pub count_of : String → Counts → ℕ
count_of k [] = 0
count_of k ((j, n) ∷ cs) = (if str_eq j k then n else 0) + count_of k cs

abbrev pub sum_of : Counts → ℕ
sum_of [] = 0
sum_of ((j, n) ∷ cs) = n + sum_of cs

count-add_key :
    (k x : String) (cs : Counts)
    → count_of k (add_key x cs) ≡ (if str_eq x k then 1 else 0) + count_of k cs
unfolding add_key
count-add_key k x [] = refl
count-add_key k x ((j, n) ∷ cs) =
    grind (arith, count-add_key k x cs, eq_iff j x, eq_iff j k, eq_iff x k)

sum-add_key : (x : String) (cs : Counts) → sum_of (add_key x cs) ≡ suc (sum_of cs)
unfolding add_key
sum-add_key x [] = refl
sum-add_key x ((j, n) ∷ cs) = ground (arith, sum-add_key x cs)

count-counter_from :
    (k : String) (xs : List String) (cs : Counts)
    → count_of k (counter_from cs xs) ≡ occurrences k xs + count_of k cs
unfolding counter_from
count-counter_from k [] cs = omega arith
count-counter_from k (x ∷ xs) cs =
    omega (arith, count-counter_from k xs (add_key x cs), count-add_key k x cs)

sum-counter_from :
    (xs : List String) (cs : Counts) → sum_of (counter_from cs xs) ≡ length xs + sum_of cs
unfolding counter_from
sum-counter_from [] cs = omega arith
sum-counter_from (x ∷ xs) cs = omega (arith, sum-counter_from xs (add_key x cs), sum-add_key x cs)

-- Larger counts come first.
abbrev pub IsOrdered : Counts → Type 0
IsOrdered [] = Unit
IsOrdered (c ∷ cs) = All (λ (x : String × ℕ). x.1 ≤ c.1) cs × IsOrdered cs

module _ (P : String × ℕ → Type 0) where
  All-insert_count : (c : String × ℕ) (cs : Counts) → P c → All P cs → All P (insert_count c cs)
  unfolding insert_count
  All-insert_count c [] p h = (p, tt)
  All-insert_count c (x ∷ xs) p h = elim (Bool-cases (ltb c.1 x.1)) [
    | inl a ↦ rw a (h.0, All-insert_count c xs p h.1)
    | inr a ↦ rw a (p, h)
  ]

below :
    (m n : ℕ) (cs : Counts)
    → m ≤ n
    → All (λ (x : String × ℕ). x.1 ≤ m) cs
    → All (λ (x : String × ℕ). x.1 ≤ n) cs
below m n [] l h = tt
below m n (c ∷ cs) l h = (omega (arith, l, h.0), below m n cs l h.1)

insert_count-IsOrdered :
    (c : String × ℕ) (cs : Counts) → IsOrdered cs → IsOrdered (insert_count c cs)
unfolding insert_count
insert_count-IsOrdered c [] h = (tt, tt)
insert_count-IsOrdered c (x ∷ xs) h = elim (Bool-cases (ltb c.1 x.1)) [
  | inl a ↦ rw a (
    All-insert_count (λ (y : String × ℕ). y.1 ≤ x.1) c xs (omega (arith, ltb→lt c.1 x.1 a)) h.0,
    insert_count-IsOrdered c xs h.1,
  )
  | inr a ↦ let l = ltb→le c.1 x.1 a in rw a ((l, below x.1 c.1 xs l h.0), h)
]

most_first-IsOrdered : (cs : Counts) → IsOrdered (most_first cs)
unfolding most_first
most_first-IsOrdered [] = tt
most_first-IsOrdered (c ∷ cs) = insert_count-IsOrdered c (most_first cs) (most_first-IsOrdered cs)

-- No key stands twice, and what is counted occurs.
abbrev IsOther : String → String × ℕ → Type 0
IsOther k c = str_eq k c.0 ≡ false

abbrev pub AreDistinct : Counts → Type 0
AreDistinct [] = Unit
AreDistinct (c ∷ cs) = All (λ (x : String × ℕ). IsOther c.0 x) cs × AreDistinct cs

IsOther-sym : (a b : String) → str_eq a b ≡ false → str_eq b a ≡ false
IsOther-sym a b h = grind (arith, eq_iff a b, eq_iff b a)

add_key-IsOther :
    (k x : String) (cs : Counts)
    → str_eq k x ≡ false
    → All (λ (c : String × ℕ). IsOther k c) cs
    → All (λ (c : String × ℕ). IsOther k c) (add_key x cs)
unfolding add_key
add_key-IsOther k x [] e h = (e, tt)
add_key-IsOther k x ((j, n) ∷ cs) e h = elim (Bool-cases (str_eq j x)) [
  | inl a ↦ rw a h
  | inr a ↦ rw a (h.0, add_key-IsOther k x cs e h.1)
]

add_key-AreDistinct : (x : String) (cs : Counts) → AreDistinct cs → AreDistinct (add_key x cs)
unfolding add_key
add_key-AreDistinct x [] h = (tt, tt)
add_key-AreDistinct x ((j, n) ∷ cs) h = elim (Bool-cases (str_eq j x)) [
  | inl a ↦ rw a h
  | inr a ↦ rw a (add_key-IsOther j x cs a h.0, add_key-AreDistinct x cs h.1)
]

counter_from-AreDistinct :
    (xs : List String) (cs : Counts) → AreDistinct cs → AreDistinct (counter_from cs xs)
unfolding counter_from
counter_from-AreDistinct [] cs h = h
counter_from-AreDistinct (x ∷ xs) cs h =
    counter_from-AreDistinct xs (add_key x cs) (add_key-AreDistinct x cs h)

add_key-AreCounted :
    (x : String) (cs : Counts)
    → All (λ (c : String × ℕ). 1 ≤ c.1) cs
    → All (λ (c : String × ℕ). 1 ≤ c.1) (add_key x cs)
unfolding add_key
add_key-AreCounted x [] h = (omega arith, tt)
add_key-AreCounted x ((j, n) ∷ cs) h = elim (Bool-cases (str_eq j x)) [
  | inl a ↦ rw a (omega arith, h.1)
  | inr a ↦ rw a (h.0, add_key-AreCounted x cs h.1)
]

counter_from-AreCounted :
    (xs : List String) (cs : Counts)
    → All (λ (c : String × ℕ). 1 ≤ c.1) cs
    → All (λ (c : String × ℕ). 1 ≤ c.1) (counter_from cs xs)
unfolding counter_from
counter_from-AreCounted [] cs h = h
counter_from-AreCounted (x ∷ xs) cs h =
    counter_from-AreCounted xs (add_key x cs) (add_key-AreCounted x cs h)

insert_count-AreDistinct :
    (c : String × ℕ) (cs : Counts)
    → All (λ (x : String × ℕ). IsOther c.0 x) cs
    → AreDistinct cs
    → AreDistinct (insert_count c cs)
unfolding insert_count
insert_count-AreDistinct c [] o h = (tt, tt)
insert_count-AreDistinct c (x ∷ xs) o h = elim (Bool-cases (ltb c.1 x.1)) [
  | inl a ↦ rw a (
    All-insert_count (λ (y : String × ℕ). IsOther x.0 y) c xs (IsOther-sym c.0 x.0 o.0) h.0,
    insert_count-AreDistinct c xs o.1 h.1,
  )
  | inr a ↦ rw a (o, h)
]

module _ (P : String × ℕ → Type 0) where
  All-most_first : (cs : Counts) → All P cs → All P (most_first cs)
  unfolding most_first
  All-most_first [] h = tt
  All-most_first (c ∷ cs) h = All-insert_count P c (most_first cs) h.0 (All-most_first cs h.1)

most_first-AreDistinct : (cs : Counts) → AreDistinct cs → AreDistinct (most_first cs)
unfolding most_first
most_first-AreDistinct [] h = tt
most_first-AreDistinct (c ∷ cs) h =
    insert_count-AreDistinct c (most_first cs)
      (All-most_first (λ (x : String × ℕ). IsOther c.0 x) cs h.0) (most_first-AreDistinct cs h.1)

-- Sorting keeps a sum over the entries.
module _ (f : String × ℕ → ℕ) where
  abbrev pub total_by : Counts → ℕ
  total_by [] = 0
  total_by (c ∷ cs) = f c + total_by cs

  total-insert_count :
      (c : String × ℕ) (cs : Counts) → total_by (insert_count c cs) ≡ f c + total_by cs
  unfolding insert_count
  total-insert_count c [] = refl
  total-insert_count c (x ∷ xs) = elim (Bool-cases (ltb c.1 x.1)) [
    | inl a ↦ rw a omega (arith, total-insert_count c xs)
    | inr a ↦ rw a refl
  ]

  total-most_first : (cs : Counts) → total_by (most_first cs) ≡ total_by cs
  unfolding most_first
  total-most_first [] = refl
  total-most_first (c ∷ cs) =
      omega (arith, total-insert_count c (most_first cs), total-most_first cs)

  sum-most_first :
      (cs : Counts) (g : Counts → ℕ)
      → ((ds : Counts) → g ds ≡ total_by ds)
      → g (most_first cs) ≡ g cs
  sum-most_first cs g h = h (most_first cs) ∙ total-most_first cs ∙ sym (h cs)

-- What holds of the sorted entries of a counter: one entry for each key that occurs, and no other.
pub record IsCount (keys : List String) (cs : Counts) : Type 0 where
  pub counts : (k : String) → count_of k cs ≡ occurrences k keys
  pub whole : sum_of cs ≡ length keys
  pub sorted : IsOrdered cs
  pub distinct : AreDistinct cs
  pub occurring : All (λ (c : String × ℕ). 1 ≤ c.1) cs

count_total :
    (k : String) (cs : Counts)
    → count_of k cs ≡ total_by (λ (c : String × ℕ). if str_eq c.0 k then c.1 else 0) cs
count_total k [] = refl
count_total k ((j, n) ∷ cs) = omega (arith, count_total k cs)

sum_total : (cs : Counts) → sum_of cs ≡ total_by (λ (c : String × ℕ). c.1) cs
sum_total [] = refl
sum_total ((j, n) ∷ cs) = omega (arith, sum_total cs)

pub counter-IsCount : (keys : List String) → IsCount keys (most_first (counter keys))
unfolding counter
counter-IsCount keys = record {
  counts = λ k.
      sum-most_first (λ (c : String × ℕ). if str_eq c.0 k then c.1 else 0) (counter_from [] keys)
        (λ cs. count_of k cs) (count_total k)
      ∙ count-counter_from k keys []
      ∙ plus_zero (occurrences k keys);
  whole =
      sum-most_first (λ (c : String × ℕ). c.1) (counter_from [] keys) (λ cs. sum_of cs) sum_total
      ∙ sum-counter_from keys []
      ∙ plus_zero (length keys);
  sorted = most_first-IsOrdered (counter_from [] keys);
  distinct = most_first-AreDistinct (counter_from [] keys) (counter_from-AreDistinct keys [] tt);
  occurring =
      All-most_first (λ (c : String × ℕ). 1 ≤ c.1) (counter_from [] keys)
        (counter_from-AreCounted keys [] tt);
}
  where
    plus_zero : (n : ℕ) → n + 0 ≡ n
    plus_zero n = omega arith
