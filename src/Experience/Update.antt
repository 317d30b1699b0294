-- ===== src/Experience/Update.antt =====
-- A change of an experience keeps it complete.
use logit_be.Common.{
  ◌≡◌, refl, sym, ap, ◌∙◌, subst, Bool, true, false, not, ◌&&◌, ◌||◌, Option, none, some, String,
  arith, inl, inr, Bool-cases,
}
use logit_be.Clock.{DateTime}
use logit_be.World.Action.{ok}
use logit_be.Experience.{
  ExperienceFormatType, Field, format_of, format_eq, Experience, ExperienceUpdate, is_set, or_keep,
  has_text, gives_text, all_fields, new_format, fields_allowed, fields_complete, cleared,
  model_copy, check_dates, update_to, update_experience,
}

-- What `ExperienceCreate` asks of an experience: the required values, and the text of its format.
pub record IsComplete (e : Experience) : Type 0 where
  pub format : ExperienceFormatType
  pub has_format : e.format_type ≡ some format
  pub titled : is_set e.title ≡ true
  pub started : is_set e.start_date ≡ true
  pub typed : is_set e.experience_type ≡ true
  pub texts : (x : Field) → format_of x ≡ format → has_text (e.fields x) ≡ true

abbrev pub not_null {ℓ} : {A : Type ℓ} → Option (Option A) → Bool
not_null none = true
not_null (some a) = is_set a

-- A request that sets none of these to null, and no text to nothing.
pub record HasNoNull (u : ExperienceUpdate) : Type 0 where
  pub title : not_null u.title ≡ true
  pub start_date : not_null u.start_date ≡ true
  pub experience_type : not_null u.experience_type ≡ true
  pub format_type : not_null u.format_type ≡ true
  pub fields : (x : Field) → is_set (u.fields x) ≡ true → gives_text (u.fields x) ≡ true

format_eq_refl : (f : ExperienceFormatType) → format_eq f f ≡ true
unfolding format_eq
format_eq_refl f = ground arith

format_eq_eq : (f g : ExperienceFormatType) → format_eq f g ≡ true → f ≡ g
unfolding format_eq
format_eq_eq f g h = ground arith

format_eq_flip : (f g : ExperienceFormatType) → format_eq f g ≡ false → format_eq g f ≡ false
unfolding format_eq
format_eq_flip f g h = ground arith

some_inj {ℓ} : {A : Type ℓ} {a b : A} → some a ≡ some b → a ≡ b
some_inj {a = a} e = ap (λ (o : Option _). elim o [ none ↦ a | some x ↦ x ]) e

pub all_at : (p : Field → Bool) → all_fields p ≡ true → (x : Field) → p x ≡ true
all_at p h x = ground arith

check_dates-same : (e e' : Experience) → check_dates e ≡ ok e' → e' ≡ e
check_dates-same e e' h = ground arith

kept_set {ℓ} :
    {A : Type ℓ} (n : Option (Option A)) (o : Option A)
    → not_null n ≡ true
    → is_set o ≡ true
    → is_set (or_keep n o) ≡ true
kept_set n o h k = ground arith

given_text :
    (n : Option (Option String)) (o : Option String)
    → gives_text n ≡ true
    → has_text (or_keep n o) ≡ true
given_text n o h = ground arith

kept_text :
    (n : Option (Option String)) (o : Option String)
    → (is_set n ≡ true → gives_text n ≡ true)
    → has_text o ≡ true
    → has_text (or_keep n o) ≡ true
kept_text none o h k = k
kept_text (some t) o h k = h refl

-- The format that an update leaves, where it sets none to null.
abbrev pub target : ExperienceFormatType → ExperienceUpdate → ExperienceFormatType
target old u = elim (new_format u) [ none ↦ old | some f ↦ f ]

copied_format :
    (old : ExperienceFormatType) (e : Experience) (u : ExperienceUpdate)
    (fs : Field → Option (Option String)) (now : DateTime)
    → e.format_type ≡ some old
    → not_null u.format_type ≡ true
    → (model_copy e u fs now).format_type ≡ some (target old u)
copied_format old e u fs now h k = ground arith

copy-IsComplete :
    (old : ExperienceFormatType) (e : Experience) (u : ExperienceUpdate)
    (fs : Field → Option (Option String)) (now : DateTime)
    → IsComplete e
    → e.format_type ≡ some old
    → HasNoNull u
    → ((x : Field) → format_of x ≡ target old u → has_text (or_keep (fs x) (e.fields x)) ≡ true)
    → IsComplete (model_copy e u fs now)
copy-IsComplete old e u fs now c h n texts = record {
  format = target old u;
  has_format = copied_format old e u fs now h n.format_type;
  titled = kept_set u.title e.title n.title c.titled;
  started = kept_set u.start_date e.start_date n.start_date c.started;
  typed = kept_set u.experience_type e.experience_type n.experience_type c.typed;
  texts = texts;
}

pub accepted_same :
    (old f : ExperienceFormatType) (e e' : Experience) (u : ExperienceUpdate) (now : DateTime)
    → format_eq f old ≡ true
    → update_to old f e u now ≡ ok e'
    → e' ≡ model_copy e u u.fields now
unfolding update_to
accepted_same old f e e' u now h r = elim (Bool-cases (fields_allowed f u)) [
  | inl a ↦ check_dates-same (model_copy e u u.fields now) e' (same_result a)
  | inr a ↦ absurd (grind arith)
]
  where
    same_result : fields_allowed f u ≡ true → check_dates (model_copy e u u.fields now) ≡ ok e'
    same_result a = rw a at rw h at r

pub accepted_switch :
    (old f : ExperienceFormatType) (e e' : Experience) (u : ExperienceUpdate) (now : DateTime)
    → format_eq f old ≡ false
    → update_to old f e u now ≡ ok e'
    → (fields_allowed f u ≡ true)
      × (fields_complete f u ≡ true)
      × (e' ≡ model_copy e u (cleared old u.fields) now)
unfolding update_to
accepted_switch old f e e' u now h r = elim (Bool-cases (fields_allowed f u)) [
  | inr a ↦ absurd (grind arith)
  | inl a ↦ elim (Bool-cases (fields_complete f u)) [
    | inr c ↦ absurd (grind arith)
    | inl c ↦ (a, c, check_dates-same (model_copy e u (cleared old u.fields) now) e' (switched a c))
  ]
]
  where
    switched :
        fields_allowed f u ≡ true
        → fields_complete f u ≡ true
        → check_dates (model_copy e u (cleared old u.fields) now) ≡ ok e'
    switched a c = rw a at rw h at rw c at r

-- The texts of a new format.
switched_text :
    (old f : ExperienceFormatType) (u : ExperienceUpdate) (x : Field)
    → format_eq f old ≡ false
    → fields_complete f u ≡ true
    → format_of x ≡ f
    → gives_text (cleared old u.fields x) ≡ true
unfolding fields_complete
switched_text old f u x h c e =
    let given = all_at (λ y. not (format_eq (format_of y) f) || gives_text (u.fields y)) c x in
    let own : format_eq (format_of x) f ≡ true = rw e (format_eq_refl f) in
    let other : format_eq (format_of x) old ≡ false = rw e h in grind arith

update_to-IsComplete :
    (old : ExperienceFormatType) (e e' : Experience) (u : ExperienceUpdate) (now : DateTime)
    → IsComplete e
    → e.format_type ≡ some old
    → HasNoNull u
    → update_experience old e u now ≡ ok e'
    → IsComplete e'
unfolding update_experience
update_to-IsComplete old e e' u now c h n r = elim (Bool-cases (format_eq (target old u) old)) [
  | inl same ↦
      let to_old = format_eq_eq (target old u) old same in
      let was : c.format ≡ old = some_inj (sym c.has_format ∙ h) in
      subst (λ (y : Experience). IsComplete y)
        (sym (accepted_same old (target old u) e e' u now same r))
        (copy-IsComplete old e u u.fields now c h n (λ x p.
          kept_text (u.fields x) (e.fields x) (n.fields x) (c.texts x (p ∙ to_old ∙ sym was))))
  | inr other ↦
      let s = accepted_switch old (target old u) e e' u now other r in
      subst (λ (y : Experience). IsComplete y) (sym s.2)
        (copy-IsComplete old e u (cleared old u.fields) now c h n (λ x p.
          given_text (cleared old u.fields x) (e.fields x)
            (switched_text old (target old u) u x other s.1 p)))
]

-- A text of the old format where the format was changed.
abbrev pub left_over : ExperienceFormatType → ExperienceUpdate → Experience → Field → Bool
left_over old u e x =
    not (format_eq (target old u) old) && (format_eq (format_of x) old && is_set (e.fields x))

cleared_after :
    (old : ExperienceFormatType) (e e' : Experience) (u : ExperienceUpdate) (now : DateTime)
    (x : Field)
    → format_eq (target old u) old ≡ false
    → update_experience old e u now ≡ ok e'
    → format_of x ≡ old
    → e'.fields x ≡ none
unfolding update_experience fields_allowed
cleared_after old e e' u now x other r p =
    let f = target old u in
    let s = accepted_switch old f e e' u now other r in
    let allowed = all_at (λ y. format_eq (format_of y) f || not (is_set (u.fields y))) s.0 x in
    let foreign : format_eq (format_of x) f ≡ false = rw p (format_eq_flip f old other) in
    let own : format_eq (format_of x) old ≡ true = rw p (format_eq_refl old) in rw s.2 grind arith

none_left :
    (old : ExperienceFormatType) (e e' : Experience) (u : ExperienceUpdate) (now : DateTime)
    (x : Field)
    → update_experience old e u now ≡ ok e'
    → left_over old u e' x ≡ false
none_left old e e' u now x r = elim (Bool-cases (format_eq (target old u) old)) [
  | inl same ↦ rw same refl
  | inr other ↦ elim (Bool-cases (format_eq (format_of x) old)) [
    | inl own ↦
        rw (other, own, cleared_after old e e' u now x other r (format_eq_eq (format_of x) old own))
          refl
    | inr foreign ↦ rw (other, foreign) refl
  ]
]

-- An update that is accepted, and sets no field to null or to an empty text, of an experience that has
-- all that one of its format needs, leaves such an experience, also where it changes the format; and
-- where it does, no text of the old format is left.
pub update-IsComplete :
    (old : ExperienceFormatType) (e e' : Experience) (u : ExperienceUpdate) (now : DateTime)
    → IsComplete e
    → e.format_type ≡ some old
    → HasNoNull u
    → update_experience old e u now ≡ ok e'
    → IsComplete e' × ((x : Field) → left_over old u e' x ≡ false)
update-IsComplete old e e' u now c h n r =
    (update_to-IsComplete old e e' u now c h n r, λ x. none_left old e e' u now x r)
