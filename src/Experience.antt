-- ===== src/Experience.antt =====
-- src/experience/models.py and the change of an experience in src/experience/service.py: what
-- `update_experience` makes of the stored experience and the request, before it is embedded and stored.
pub mod Category
pub mod Tags
pub mod Client
pub mod Store
pub mod Laws
pub mod Owner
pub mod Clean
pub mod Valid
pub mod Listing
pub mod Lifecycle
pub mod Blocked
pub mod Memory
pub mod Labels
pub mod Samples
pub mod Score
pub mod Match
pub mod Ranking
pub mod Matching
pub mod MatchTests
pub mod Bounds
pub mod Update
pub mod Tests
use logit_be.Common.{
  ℕ, ltb, Bool, true, false, not, ◌&&◌, ◌||◌, ◌==◌, Option, none, some, String, List, [], ◌∷◌,
  str_eq, if◌then◌else◌,
}
use logit_be.Clock.{DateTime, Date}
use logit_be.Experience.Category.{ExperienceType, ExperienceCategory}
use logit_be.World.Action.{Result, ok, raised, http_error, type_error}

pub data ExperienceFormatType : Type 0 where
  star psi free : ExperienceFormatType

-- The fields of the text of an experience, each of one format.
pub data Field : Type 0 where
  situation task action result problem solution insight content : Field

unfoldable pub format_of : Field → ExperienceFormatType
format_of situation = star
format_of task = star
format_of action = star
format_of result = star
format_of problem = psi
format_of solution = psi
format_of insight = psi
format_of content = free

unfoldable pub format_eq : ExperienceFormatType → ExperienceFormatType → Bool
format_eq star star = true
format_eq psi psi = true
format_eq free free = true
format_eq _ _ = false

-- An experience as it is stored: a copy with an update is not validated, so that a null can stand in any
-- field that a request sets.
pub record Experience : Type 0 where
  pub id : String
  pub user_id : String
  pub title : Option String
  pub start_date : Option Date
  pub end_date : Option Date
  pub experience_type : Option ExperienceType
  pub format_type : Option ExperienceFormatType
  pub fields : Field → Option String
  pub category : ExperienceCategory
  pub tags : String
  pub created_at : DateTime
  pub updated_at : DateTime

-- `model_dump(exclude_unset=True)`: the fields that the request set, which may be null.
pub record ExperienceUpdate : Type 0 where
  pub title : Option (Option String)
  pub start_date : Option (Option Date)
  pub end_date : Option (Option Date)
  pub experience_type : Option (Option ExperienceType)
  pub format_type : Option (Option ExperienceFormatType)
  pub fields : Field → Option (Option String)

abbrev pub is_set {ℓ} : {A : Type ℓ} → Option A → Bool
is_set none = false
is_set (some a) = true

abbrev pub or_keep {ℓ} : {A : Type ℓ} → Option A → A → A
or_keep none a = a
or_keep (some b) a = b

-- Whether a text is given, and whether `update_data.get(f)` is.
abbrev pub has_text : Option String → Bool
has_text none = false
has_text (some s) = not (str_eq s "")

abbrev pub gives_text : Option (Option String) → Bool
gives_text none = false
gives_text (some t) = has_text t

-- A test of all fields.
abbrev pub all_fields : (Field → Bool) → Bool
all_fields p =
    p situation
    && p task
    && p action
    && p result
    && p problem
    && p solution
    && p insight
    && p content

-- `update_data.get("format_type")`
abbrev pub new_format : ExperienceUpdate → Option ExperienceFormatType
new_format u = elim u.format_type [ none ↦ none | some f ↦ f ]

-- No field of another format is set.
unfoldable pub fields_allowed : ExperienceFormatType → ExperienceUpdate → Bool
fields_allowed f u = all_fields (λ x. format_eq (format_of x) f || not (is_set (u.fields x)))

-- Every field of the format is given.
unfoldable pub fields_complete : ExperienceFormatType → ExperienceUpdate → Bool
fields_complete f u = all_fields (λ x. not (format_eq (format_of x) f) || gives_text (u.fields x))

-- `update_data.setdefault(field, None)` for the fields of the format that is left.
abbrev pub cleared :
    ExperienceFormatType → (Field → Option (Option String)) → Field → Option (Option String)
cleared old fs x = if format_eq (format_of x) old && not (is_set (fs x)) then some none else fs x

abbrev pub later_date : Date → Date → Bool
later_date a b =
    if a.year == b.year
    then if a.month == b.month then ltb b.day a.day else ltb b.month a.month
    else ltb b.year a.year

-- `model_copy(update=update_data)`
abbrev pub model_copy :
    Experience → ExperienceUpdate → (Field → Option (Option String)) → DateTime → Experience
model_copy e u fs now = record {
  id = e.id;
  user_id = e.user_id;
  title = or_keep u.title e.title;
  start_date = or_keep u.start_date e.start_date;
  end_date = or_keep u.end_date e.end_date;
  experience_type = or_keep u.experience_type e.experience_type;
  format_type = or_keep u.format_type e.format_type;
  fields = λ x. or_keep (fs x) (e.fields x);
  category = e.category;
  tags = e.tags;
  created_at = e.created_at;
  updated_at = now;
}

-- The dates of the copy: 400 where they are in the wrong order, an error where the first is null.
abbrev pub check_dates : Experience → Result Experience
check_dates e = elim e.end_date [
  | none ↦ ok e
  | some d ↦ elim e.start_date [
    | none ↦ raised type_error
    | some s ↦ if later_date s d then raised (http_error 400) else ok e
  ]
]

-- An update of an experience of format `old` that is of format `f` afterwards.
unfoldable pub update_to :
    ExperienceFormatType
    → ExperienceFormatType
    → Experience
    → ExperienceUpdate
    → DateTime
    → Result Experience
update_to old f e u now =
    if not (fields_allowed f u)
    then raised (http_error 400)
    else if format_eq f old
    then check_dates (model_copy e u u.fields now)
    else if not (fields_complete f u)
    then raised (http_error 400)
    else check_dates (model_copy e u (cleared old u.fields) now)

-- `update_experience` up to the copy. An experience that was read has a format.
unfoldable pub update_experience :
    ExperienceFormatType → Experience → ExperienceUpdate → DateTime → Result Experience
update_experience old e u now =
    update_to old (elim (new_format u) [ none ↦ old | some f ↦ f ]) e u now
