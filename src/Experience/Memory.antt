-- ===== src/Experience/Memory.antt =====
-- A collection with room for one point, which has the laws.
use logit_be.Common.{
  ℕ, ◌≡◌, ◌⊎◌, refl, sym, ap, subst, Bool, true, false, Option, none, some, String, List, [], ◌∷◌,
  str_eq, length, take, All, if◌then◌else◌, arith, inl, inr, Bool-cases, eq_iff, eq_refl,
}
use logit_be.Experience.{Experience}
use logit_be.Experience.Client.{Reply, answered, failed, QdrantClient}
use logit_be.Experience.Laws.{IsQdrant, as_list}

abbrev pub slot : Option Experience → String → Option Experience
slot o id = if str_eq "e1" id then o else none

abbrev pub owned_by : Option Experience → String → List Experience
owned_by none u = []
owned_by (some e) u = if str_eq e.user_id u then e ∷ [] else []

abbrev put : String → Option Experience → Option Experience → Reply (Unit {0}) × Option Experience
put id new o = if str_eq "e1" id then (answered tt, new) else (failed, o)

abbrev pub memory : QdrantClient (Option Experience) ℕ ℕ
memory = record {
  retrieve = λ id o. answered (as_list (slot o id));
  count = λ u o. answered (length (owned_by o u));
  scroll_newest = λ u n o. answered (take n (owned_by o u));
  scroll = λ u n offset o. answered (owned_by o u, none);
  query_points = λ u v n o. answered [];
  upsert = λ id v e o. put id (some e) o;
  set_payload = λ id e o. put id (some e) o;
  delete = λ id o. put id none o;
}

answer_eq : {A : Type 0} {a b : A} → answered a ≡ answered b → b ≡ a
answer_eq {A = A} {a = a} h = sym (ap (λ (r : Reply A). elim r [ answered x ↦ x | _ ↦ a ]) h)

put_done :
    (id : String) (new o : Option Experience)
    → (put id new o).0 ≡ answered tt
    → slot (put id new o).1 id ≡ new
put_done id new o h = elim (Bool-cases (str_eq "e1" id)) [
  | inl a ↦ rw a refl
  | inr a ↦ absurd (grind arith)
]

put_here :
    (id : String) (new o : Option Experience)
    → (slot (put id new o).1 id ≡ slot o id) ⊎ (slot (put id new o).1 id ≡ new)
put_here id new o = elim (Bool-cases (str_eq "e1" id)) [
  | inl a ↦ inr (rw a refl)
  | inr a ↦ inl (rw a refl)
]

put_else :
    (id j : String) (new o : Option Experience)
    → str_eq id j ≡ false
    → slot (put id new o).1 j ≡ slot o j
put_else id j new o h = elim (Bool-cases (str_eq "e1" id)) [
  | inl a ↦
      let other : str_eq "e1" j ≡ false =
        subst (λ (k : String). str_eq k j ≡ false) (sym ((eq_iff "e1" id).0 a)) h in
      rw (a, other) refl
  | inr a ↦ rw a refl
]

slot_owned :
    (P : Experience → Type 0) (u : String) (o : Option Experience)
    → ((id : String) (e : Experience) → slot o id ≡ some e → P e)
    → All P (owned_by o u)
slot_owned P u none h = tt
slot_owned P u (some e) h = elim (Bool-cases (str_eq e.user_id u)) [
  | inl a ↦ rw a (h "e1" e refl, tt)
  | inr a ↦ rw a tt
]

given {ℓ} :
    {A : Type ℓ} (b : Bool) (o : Option A) (a : A) → (if b then o else none) ≡ some a → o ≡ some a
given true o a h = h
given false o a h = absurd (ground arith)

owned_at :
    (P : Experience → Type 0) (o : Option Experience) (e : Experience)
    → o ≡ some e
    → All P (owned_by o e.user_id)
    → P e
owned_at P o e h a =
    let b : All P (owned_by (some e) e.user_id) =
      subst (λ (x : Option Experience). All P (owned_by x e.user_id)) h a in
    (rw (eq_refl e.user_id) at b).0

owned_slot :
    (P : Experience → Type 0) (id : String) (o : Option Experience) (e : Experience)
    → slot o id ≡ some e
    → All P (owned_by o e.user_id)
    → P e
owned_slot P id o e h a = owned_at P o e (given (str_eq "e1" id) o e h) a

pub memory_laws : IsQdrant memory slot owned_by
memory_laws = record {
  retrieve = λ id c es h. answer_eq h;
  count = λ u c n h. answer_eq h;
  scroll_newest = λ u n c es h. answer_eq h;
  newest_stored = slot_owned;
  stored_newest = owned_slot;
  upsert = λ id v e c. put_done id (some e) c;
  upsert_here = λ id v e c. put_here id (some e) c;
  upsert_else = λ id j v e c. put_else id j (some e) c;
  set_payload = λ id e c. put_done id (some e) c;
  set_payload_here = λ id e c. put_here id (some e) c;
  set_payload_else = λ id j e c. put_else id j (some e) c;
  delete = λ id c. put_done id none c;
  delete_here = λ id c. put_here id none c;
  delete_else = λ id j c. put_else id j none c;
}
