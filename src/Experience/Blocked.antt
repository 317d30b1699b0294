-- ===== src/Experience/Blocked.antt =====
-- What a null in a required value does, which `update_experience` accepts.
use logit_be.Common.{
  ℕ, ◌+◌, ◌≤◌, min, leb, ◌≡◌, refl, sym, ap, ◌∙◌, subst, Bool, true, false, Option, none, some,
  String, List, [], ◌∷◌, str_eq, length, All, arith, inl, inr, Bool-cases, eq_iff,
}
use logit_be.Clock.{DateTime}
use logit_be.World.Action.{Result, ok, raised, http_error, value_error}
use logit_be.Experience.{
  ExperienceFormatType, Experience, ExperienceUpdate, format_eq, model_copy, cleared,
}
use logit_be.Experience as Change
use logit_be.Experience.Update.{target, accepted_same, accepted_switch}
use logit_be.Experience.Client.{answered, QdrantClient, OpenAi, or_503, bind_ok}
use logit_be.Experience.Tags.{generate_tags_and_category}
use logit_be.Experience.Store.{
  is_valid, from_payload, get_experience, with_labels, embedded, content_changed, store_update,
  update_as, update_read, update_experience, delete_experience, payloads, read_owned,
  list_experiences,
}
use logit_be.Experience.Clean.{from_payload-valid}
use logit_be.Experience.Lifecycle.{read_stored, written_ok, upserted_ok, embedded_same}
use logit_be.Experience.Listing.{take_all}
use logit_be.Experience.Laws.{IsQdrant}

-- An accepted update leaves the owner, and a null title.
copied :
    (old : ExperienceFormatType) (e e' : Experience) (u : ExperienceUpdate) (now : DateTime)
    → Change.update_experience old e u now ≡ ok e'
    → u.title ≡ some none
    → (e'.user_id ≡ e.user_id) × (e'.title ≡ none)
unfolding Change.update_experience
copied old e e' u now r h = elim (Bool-cases (format_eq (target old u) old)) [
  | inl same ↦
      subst (λ (y : Experience). (y.user_id ≡ e.user_id) × (y.title ≡ none))
        (sym (accepted_same old (target old u) e e' u now same r)) (refl, rw h refl)
  | inr other ↦
      subst (λ (y : Experience). (y.user_id ≡ e.user_id) × (y.title ≡ none))
        (sym (accepted_switch old (target old u) e e' u now other r).2) (refl, rw h refl)
]

untitled : (e : Experience) → e.title ≡ none → is_valid e ≡ false
unfolding is_valid
untitled e h = rw h refl

invalid_payload : (e : Experience) → is_valid e ≡ false → from_payload e ≡ raised value_error
unfolding from_payload
invalid_payload e h = rw h refl

clash : (b : Bool) → b ≡ false → b ≡ true → ⊥
clash b h k = ground arith

module _ {C V S : Type 0} (q : QdrantClient C V S) (stored : C → String → Option Experience)
    (newest : C → String → List Experience) (laws : IsQdrant q stored newest) where
  -- What an update that went through has stored.
  store_update_ok :
      (ai : OpenAi V) (id : String) (old : ExperienceFormatType) (u : ExperienceUpdate)
      (r : Result Experience) (c c' : C) (e' : Experience)
      → store_update q ai id old u r c ≡ (ok e', c')
      → (y : Experience) × (r ≡ ok y)
        × (e'.user_id ≡ y.user_id)
        × (e'.title ≡ y.title)
        × (stored c' id ≡ some e')
  unfolding store_update
  store_update_ok ai id old u (raised x) c c' e' h =
      absurd (let z = ap (λ (p : Result Experience × C). p.0) h in ground arith)
  store_update_ok ai id old u (ok y) c c' e' h = elim (Bool-cases (content_changed old u)) [
    | inl again ↦
        let labelled = with_labels q y (generate_tags_and_category ai.completions y) in
        let p =
          upserted_ok q stored newest laws id (embedded q ai labelled) c c' e' (rw again at h) in
        let same : e' ≡ labelled = embedded_same q stored newest laws ai labelled (e', p.0) p.1 in
        (
          y,
          refl,
          ap (λ (z : Experience). z.user_id) same,
          ap (λ (z : Experience). z.title) same,
          p.2,
        )
    | inr kept ↦
        let w =
          written_ok q stored newest laws y e' (q.set_payload id y c).0 (q.set_payload id y c).1 c'
            (rw kept at h) in
        (
          y,
          refl,
          ap (λ (z : Experience). z.user_id) (sym w.1),
          ap (λ (z : Experience). z.title) (sym w.1),
          subst (λ (d : C). stored d id ≡ some e') w.2
              (laws.set_payload id y c w.0 ∙ ap (λ (z : Experience). some z) w.1),
        )
  ]

  -- A read that succeeds is of an experience of the user.
  pub read_own :
      (id u : String) (c : C) (e : Experience)
      → get_experience q id u c ≡ ok e
      → str_eq e.user_id u ≡ true
  unfolding get_experience
  read_own id u c e h =
      let p = bind_ok (or_503 (q.retrieve id c)) (read_owned q u) e h in owned p.0 p.2
    where
      owned : (es : List Experience) → read_owned q u es ≡ ok e → str_eq e.user_id u ≡ true
      owned [] r = absurd (ground arith)
      owned (x ∷ xs) r = elim (Bool-cases (str_eq x.user_id u)) [
        | inl own ↦
            subst (λ (y : Experience). str_eq y.user_id u ≡ true)
              (sym (from_payload-valid x e (rw own at r)).0) own
        | inr other ↦ absurd (grind arith)
      ]

  update_as_ok :
      (ai : OpenAi V) (id : String) (u : ExperienceUpdate) (now : DateTime)
      (f : Option ExperienceFormatType) (e : Experience) (c c' : C) (e' : Experience)
      → update_as q ai id u now f e c ≡ (ok e', c')
      → u.title ≡ some none
      → (e'.user_id ≡ e.user_id) × (is_valid e' ≡ false) × (stored c' id ≡ some e')
  update_as_ok ai id u now none e c c' e' h t =
      absurd (let z = ap (λ (p : Result Experience × C). p.0) h in ground arith)
  update_as_ok ai id u now (some old) e c c' e' h t =
      let s = store_update_ok ai id old u (Change.update_experience old e u now) c c' e' h in
      let k = copied old e s.0 u now s.1 t in (s.2 ∙ k.0, untitled e' (s.3 ∙ k.1), s.4)

  update_read_ok :
      (ai : OpenAi V) (id : String) (u : ExperienceUpdate) (now : DateTime) (v : String)
      (r : Result Experience) (c c' : C) (e' : Experience)
      → update_read q ai id u now r c ≡ (ok e', c')
      → u.title ≡ some none
      → ((e : Experience) → r ≡ ok e → str_eq e.user_id v ≡ true)
      → (str_eq e'.user_id v ≡ true) × (is_valid e' ≡ false) × (stored c' id ≡ some e')
  update_read_ok ai id u now v (raised x) c c' e' h t o =
      absurd (let z = ap (λ (p : Result Experience × C). p.0) h in ground arith)
  update_read_ok ai id u now v (ok e) c c' e' h t o =
      let s = update_as_ok ai id u now e.format_type e c c' e' h t in
      (subst (λ (x : String). str_eq x v ≡ true) (sym s.0) (o e refl), s.1, s.2)

  payloads_failed :
      (es : List Experience)
      → (All (λ (e : Experience). is_valid e ≡ true) es → ⊥)
      → payloads q es ≡ raised (http_error 500)
  payloads_failed [] h = absurd (h tt)
  payloads_failed (e ∷ es) h = elim (Bool-cases (is_valid e)) [
    | inl v ↦ rw (v, payloads_failed es (λ a. h (v, a))) refl
    | inr v ↦ rw v refl
  ]

  -- A list of everything, where one cannot be read.
  list_failed :
      (u : String) (limit n : ℕ) (c : C) (fs : List Experience)
      → (All (λ (e : Experience). is_valid e ≡ true) (newest c u) → ⊥)
      → q.count u c ≡ answered n
      → n ≤ limit
      → q.scroll_newest u n c ≡ answered fs
      → list_experiences q u limit 0 c ≡ raised (http_error 500)
  unfolding list_experiences
  list_failed u limit n c fs h k l s =
      rw
        (
          k,
          past n (newest c u) (laws.count u c n k) h,
          least limit n l,
          s,
          payloads_failed fs whole,
        )
        refl
    where
      past :
          (m : ℕ) (es : List Experience)
          → m ≡ length es
          → (All (λ (e : Experience). is_valid e ≡ true) es → ⊥)
          → leb m 0 ≡ false
      past m [] i h = absurd (h tt)
      past m (e ∷ es) i h = ground (arith, i)

      least : (a b : ℕ) → b ≤ a → min (a + 0) b ≡ b
      least a b h = omega (arith, h)

      same : fs ≡ newest c u
      same =
          laws.scroll_newest u n c fs s
          ∙ take_all n (newest c u) (omega (arith, laws.count u c n k))

      whole : All (λ (e : Experience). is_valid e ≡ true) fs → ⊥
      whole a =
          h (
            subst (λ (xs : List Experience). All (λ (e : Experience). is_valid e ≡ true) xs) same a)

  -- Where an update sets the title to null, it is stored, if it passes its other checks and the calls
  -- are answered. Then the owner can neither read, nor delete, nor change the experience, and a
  -- list of all the owner's experiences answers 500.
  pub null_title_blocks :
      (ai ai' : OpenAi V) (id u : String) (body body' : ExperienceUpdate) (now later : DateTime)
      (c c' : C) (e' : Experience) (es fs : List Experience) (limit n : ℕ)
      → update_experience q ai id u body now c ≡ (ok e', c')
      → body.title ≡ some none
      → q.retrieve id c' ≡ answered es
      → q.count u c' ≡ answered n
      → n ≤ limit
      → q.scroll_newest u n c' ≡ answered fs
      → (get_experience q id u c' ≡ raised value_error)
        × (delete_experience q id u c' ≡ (raised value_error, c'))
        × (update_experience q ai' id u body' later c' ≡ (raised value_error, c'))
        × (list_experiences q u limit 0 c' ≡ raised (http_error 500))
  unfolding update_experience delete_experience list_experiences
  null_title_blocks ai ai' id u body body' now later c c' e' es fs limit n h t r k l s =
      let w =
        update_read_ok ai id body now u (get_experience q id u c) c c' e' h t (read_own id u c) in
      let g : get_experience q id u c' ≡ raised value_error =
        read_stored q stored newest laws id u e' c' es w.2 w.0 r ∙ invalid_payload e' w.1 in
      let IsReadable : Experience → Type 0 = λ e. is_valid e ≡ true in
      let unread : All IsReadable (newest c' u) → ⊥ = λ a. clash (is_valid e') w.1 (
        laws.stored_newest IsReadable id c' e' w.2 (
          subst (λ (v : String). All IsReadable (newest c' v)) (sym ((eq_iff e'.user_id u).0 w.0))
            a)) in
      (g, rw g refl, rw g refl, list_failed u limit n c' fs unread k l s)
