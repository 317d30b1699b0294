-- ===== src/Text.antt =====
-- What the services use of Python's `str`, `int`, `uuid.UUID` and `secrets.compare_digest`, on texts
-- as lists of code points. Digits and blanks beyond ASCII are not read as such.
pub mod Words
pub mod Joined
use Prim.Native.Char.{Char, code}
use logit_be.Common.{
  ℕ, zero, suc, ◌+◌, ◌-◌, ◌*◌, ℤ, pos, negsuc, Bool, true, false, not, ◌&&◌, ◌||◌, ltb, leb, ◌==◌,
  Option, none, some, String, List, [], ◌∷◌, str_eq, if◌then◌else◌, length, ◌≡◌, refl,
}
use mathlib.Core.List.{reverse}

abbrev pub codes : String → List ℕ
codes String.[] = []
codes (String.◌∷◌ c s) = code c ∷ codes s

-- `d.get(key)` of a dict with text keys.
abbrev pub lookup : String → List (String × String) → Option String
lookup k [] = none
lookup k ((j, v) ∷ d) = if str_eq j k then some v else lookup k d

-- `d.get(key, default)`
abbrev pub get_or : String → String → List (String × String) → String
get_or k v d = elim (lookup k d) [ none ↦ v | some x ↦ x ]

-- Whether Python takes an optional text as true.
abbrev pub truthy : Option String → Bool
truthy none = false
truthy (some s) = not (str_eq s "")

-- Blanks, and what is left of a text when they are taken off both ends.
abbrev is_blank : ℕ → Bool
is_blank c = leb 9 c && leb c 13 || leb 28 c && leb c 32

strip_left : (ℕ → Bool) → List ℕ → List ℕ
strip_left p [] = []
strip_left p (c ∷ cs) = let rest = strip_left p cs in if p c then rest else c ∷ cs

strip : (ℕ → Bool) → List ℕ → List ℕ
unfolding strip_left
strip p cs = reverse (strip_left p (reverse (strip_left p cs)))

abbrev in_range : ℕ → ℕ → ℕ → Bool
in_range lo hi c = leb lo c && leb c hi

-- The value of a digit, 16 or more for what is none.
abbrev digit_value : ℕ → ℕ
digit_value c =
    if in_range b'0' b'9' c
    then c - b'0'
    else if in_range b'a' b'f' c
    then c - b'a' + 10
    else if in_range b'A' b'F' c
    then c - b'A' + 10
    else 16

-- Where an integer literal is read: underscores stand between digits only.
pub data Place : Type 0 where
  start after_prefix after_digit after_underscore : Place

abbrev may_underscore : Place → Bool
may_underscore after_prefix = true
may_underscore after_digit = true
may_underscore _ = false

abbrev may_end : Place → Bool
may_end after_digit = true
may_end _ = false

digits_from : ℕ → ℕ → Place → List ℕ → Option ℕ
digits_from base acc place [] = if may_end place then some acc else none
digits_from base acc place (c ∷ cs) =
    let more = digits_from base (acc * base + digit_value c) after_digit cs in
    let skip = digits_from base acc after_underscore cs in
    if ltb (digit_value c) base
    then more
    else if c == b'_' && may_underscore place
    then skip
    else none

-- An unsigned literal: in base 16 it may begin with `0x`.
unsigned : ℕ → List ℕ → Option ℕ
unfolding digits_from
unsigned base (z ∷ x ∷ cs) =
    if base == 16 && z == b'0' && (x == b'x' || x == b'X')
    then digits_from base 0 after_prefix cs
    else digits_from base 0 start (z ∷ x ∷ cs)
unsigned base cs = digits_from base 0 start cs

abbrev negate : ℕ → ℤ
negate zero = pos zero
negate (suc n) = negsuc n

signed : ℕ → List ℕ → Option ℤ
unfolding unsigned
signed base [] = none
signed base (c ∷ cs) =
    if c == b'-'
    then elim (unsigned base cs) [ none ↦ none | some n ↦ some (negate n) ]
    else elim (unsigned base (if c == b'+' then cs else c ∷ cs)) [
      | none ↦ none
      | some n ↦ some (pos n)
    ]

-- `int(text)`; `none` is a `ValueError`.
unfoldable pub parse_int : String → Option ℤ
unfolding signed strip
parse_int s = signed 10 (strip is_blank (codes s))

-- Whether a text begins with another, and the rest of it.
drop_prefix : List ℕ → List ℕ → Option (List ℕ)
drop_prefix [] cs = some cs
drop_prefix (p ∷ ps) [] = none
drop_prefix (p ∷ ps) (c ∷ cs) = let rest = drop_prefix ps cs in if p == c then rest else none

-- `text.replace(word, "")`, on fuel that the length of the text suffices for.
remove_word : ℕ → List ℕ → List ℕ → List ℕ
unfolding drop_prefix
remove_word zero word cs = cs
remove_word (suc n) word [] = []
remove_word (suc n) word (c ∷ cs) = elim (drop_prefix word (c ∷ cs)) [
  | some rest ↦ remove_word n word rest
  | none ↦ c ∷ remove_word n word cs
]

abbrev is_brace : ℕ → Bool
is_brace c = c == b'{' || c == b'}'

-- The 32 digits that `UUID(text)` reads.
uuid_digits : List ℕ → List ℕ
unfolding remove_word strip
uuid_digits cs =
    let a = remove_word (length cs) (codes "urn:") cs in
    let b = remove_word (length a) (codes "uuid:") a in
    let c = strip is_brace b in remove_word (length c) (codes "-") c

abbrev nonneg : Option ℤ → Option ℕ
nonneg (some (pos n)) = some n
nonneg _ = none

-- `UUID(text)`, as its number; `none` is a `ValueError`.
unfoldable pub parse_uuid : String → Option ℕ
unfolding uuid_digits signed strip
parse_uuid s =
    let ds = uuid_digits (codes s) in
    if length ds == 32 then nonneg (signed 16 (strip is_blank ds)) else none

-- `text.split(":")`
cons_head : Char → List String → List String
cons_head c [] = String.◌∷◌ c String.[] ∷ []
cons_head c (w ∷ ws) = String.◌∷◌ c w ∷ ws

unfoldable pub split_colon : String → List String
unfolding cons_head
split_colon String.[] = "" ∷ []
split_colon (String.◌∷◌ c s) =
    let rest = split_colon s in if code c == b':' then "" ∷ rest else cons_head c rest

-- Whether a text is ASCII, as `secrets.compare_digest` requires of its two texts.
is_ascii_codes : List ℕ → Bool
is_ascii_codes [] = true
is_ascii_codes (c ∷ cs) = ltb c 128 && is_ascii_codes cs

unfoldable pub is_ascii : String → Bool
unfolding is_ascii_codes
is_ascii s = is_ascii_codes (codes s)

uuid_test : parse_uuid "{00000000-0000-0000-0000-00000000001f}" ≡ some 31
unfolding parse_uuid
uuid_test = refl

int_test : parse_int " -1_000 " ≡ some (negsuc 999)
unfolding parse_int
int_test = refl

split_test : split_colon "logit:lite" ≡ "logit" ∷ "lite" ∷ []
unfolding split_colon
split_test = refl
