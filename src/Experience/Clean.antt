-- ===== src/Experience/Clean.antt =====
-- What the validation of a read asks, and the updates that keep it.
use logit_be.Common.{
  ◌≡◌, refl, sym, subst, Bool, true, not, ◌&&◌, Option, none, some, String, arith, inl, inr,
  Bool-cases,
}
use logit_be.Clock.{DateTime}
use logit_be.World.Action.{ok}
use logit_be.Experience.{
  ExperienceFormatType, Field, situation, task, action, result, problem, solution, insight, content,
  format_eq, format_of, Experience, ExperienceUpdate, is_set, or_keep, all_fields, cleared,
  model_copy,
}
use logit_be.Experience as Change
use logit_be.Experience.Update.{not_null, target, accepted_same, accepted_switch, all_at}
use logit_be.Experience.Category.{ExperienceCategory}
use logit_be.Experience.Client.{ok_inj}
use logit_be.Experience.Store.{required_title, optional_text, is_valid, from_payload}
use logit_be.Experience.Laws.{Request, create, update, delete}

abbrev fits_if_set : Option (Option String) → Bool
fits_if_set none = true
fits_if_set (some t) = required_title t

abbrev text_if_set : Option (Option String) → Bool
text_if_set none = true
text_if_set (some t) = optional_text t

-- An update that passed the bounds of the schema and sets no required value to null.
abbrev pub is_clean : ExperienceUpdate → Bool
is_clean u =
    fits_if_set u.title
    && not_null u.start_date
    && not_null u.experience_type
    && not_null u.format_type
    && all_fields (λ x. text_if_set (u.fields x))

abbrev pub is_clean_request : Request → Bool
is_clean_request (create u body id now) = true
is_clean_request (update u id body now) = is_clean body
is_clean_request (delete u id) = true

and_five :
    (a b c d e : Bool)
    → (a && b && c && d && e) ≡ true
    → (a ≡ true) × (b ≡ true) × (c ≡ true) × (d ≡ true) × (e ≡ true)
and_five a b c d e h = ground arith

five_and :
    (a b c d e : Bool)
    → a ≡ true
    → b ≡ true
    → c ≡ true
    → d ≡ true
    → e ≡ true
    → (a && b && c && d && e) ≡ true
five_and a b c d e h i j k l = ground arith

all_from : (p : Field → Bool) → ((x : Field) → p x ≡ true) → all_fields p ≡ true
all_from p h =
    rw (h situation, h task, h action, h result, h problem, h solution, h insight, h content) refl

kept_title :
    (n : Option (Option String)) (o : Option String)
    → fits_if_set n ≡ true
    → required_title o ≡ true
    → required_title (or_keep n o) ≡ true
kept_title none o h k = k
kept_title (some t) o h k = h

kept_set {ℓ} :
    {A : Type ℓ} (n : Option (Option A)) (o : Option A)
    → not_null n ≡ true
    → is_set o ≡ true
    → is_set (or_keep n o) ≡ true
kept_set none o h k = k
kept_set (some t) o h k = h

kept_text :
    (n : Option (Option String)) (o : Option String)
    → text_if_set n ≡ true
    → optional_text o ≡ true
    → optional_text (or_keep n o) ≡ true
kept_text none o h k = k
kept_text (some t) o h k = h

cleared_text :
    (old : ExperienceFormatType) (fs : Field → Option (Option String)) (x : Field)
    → text_if_set (fs x) ≡ true
    → text_if_set (cleared old fs x) ≡ true
cleared_text old fs x h = elim (Bool-cases (format_eq (format_of x) old && not (is_set (fs x)))) [
  | inl a ↦ rw a refl
  | inr a ↦ rw a h
]

copy_valid :
    (e : Experience) (u : ExperienceUpdate) (fs : Field → Option (Option String)) (now : DateTime)
    → is_valid e ≡ true
    → is_clean u ≡ true
    → ((x : Field) → text_if_set (fs x) ≡ true)
    → is_valid (model_copy e u fs now) ≡ true
unfolding is_valid
copy_valid e u fs now v k t =
    let a = and_five _ _ _ _ _ v in
    let b = and_five _ _ _ _ _ k in
    five_and _ _ _ _ _ (kept_title u.title e.title b.0 a.0)
      (kept_set u.start_date e.start_date b.1 a.1)
      (kept_set u.experience_type e.experience_type b.2 a.2)
      (kept_set u.format_type e.format_type b.3 a.3)
      (all_from (λ x. optional_text (or_keep (fs x) (e.fields x)))
        (λ x. kept_text (fs x) (e.fields x) (t x) (all_at (λ y. optional_text (e.fields y)) a.4 x)))

clean_texts :
    (u : ExperienceUpdate) → is_clean u ≡ true → all_fields (λ x. text_if_set (u.fields x)) ≡ true
clean_texts u k =
    (and_five (fits_if_set u.title) (not_null u.start_date) (not_null u.experience_type)
      (not_null u.format_type) _ k).4

pub update_valid :
    (old : ExperienceFormatType) (e e' : Experience) (u : ExperienceUpdate) (now : DateTime)
    → is_valid e ≡ true
    → is_clean u ≡ true
    → Change.update_experience old e u now ≡ ok e'
    → is_valid e' ≡ true
unfolding Change.update_experience
update_valid old e e' u now v k r =
    let texts = all_at (λ y. text_if_set (u.fields y)) (clean_texts u k) in
    elim (Bool-cases (format_eq (target old u) old)) [
      | inl same ↦
          subst (λ (y : Experience). is_valid y ≡ true)
            (sym (accepted_same old (target old u) e e' u now same r))
            (copy_valid e u u.fields now v k texts)
      | inr other ↦
          subst (λ (y : Experience). is_valid y ≡ true)
            (sym ((accepted_switch old (target old u) e e' u now other r).2))
            (copy_valid e u (cleared old u.fields) now v k
              (λ x. cleared_text old u.fields x (texts x)))
    ]

pub relabelled_valid :
    (e : Experience) (tags : String) (category : ExperienceCategory)
    → is_valid e ≡ true
    → is_valid (record e { tags = tags; category = category }) ≡ true
unfolding is_valid
relabelled_valid e tags category h = h

pub from_payload-valid :
    (e e' : Experience) → from_payload e ≡ ok e' → (e' ≡ e) × (is_valid e' ≡ true)
unfolding from_payload
from_payload-valid e e' h = elim (Bool-cases (is_valid e)) [
  | inl a ↦
      let same : e ≡ e' = ok_inj (rw a at h) in
      (sym same, subst (λ (y : Experience). is_valid y ≡ true) same a)
  | inr a ↦ absurd (grind arith)
]
