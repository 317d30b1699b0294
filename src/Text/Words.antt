-- ===== src/Text/Words.antt =====
-- Python's `strip`, `split`, `join` and `removeprefix` on texts. Blanks beyond ASCII are not read as such.
use Prim.Native.Char.{Char, code}
use Prim.Native.String.{◌++◌ as str_append}
use logit_be.Common.{
  ℕ, Bool, ◌&&◌, ◌||◌, leb, ◌==◌, Option, none, some, String, List, [], ◌∷◌, if◌then◌else◌, ◌≡◌,
  refl,
}

abbrev is_space : Char → Bool
is_space c = leb 9 (code c) && leb (code c) 13 || leb 28 (code c) && leb (code c) 32

abbrev pub skip_space : String → String
skip_space String.[] = String.[]
skip_space (String.◌∷◌ c s) = let rest = skip_space s in if is_space c then rest else String.◌∷◌ c s

abbrev pub reverse_onto : String → String → String
reverse_onto acc String.[] = acc
reverse_onto acc (String.◌∷◌ c s) = reverse_onto (String.◌∷◌ c acc) s

-- `text.strip()`
abbrev pub strip : String → String
strip s = reverse_onto "" (skip_space (reverse_onto "" (skip_space s)))

abbrev pub cons_word : Char → List String → List String
cons_word c [] = String.◌∷◌ c String.[] ∷ []
cons_word c (w ∷ ws) = String.◌∷◌ c w ∷ ws

-- `text.split(sep)` at a separator of one character.
abbrev pub split : ℕ → String → List String
split sep String.[] = "" ∷ []
split sep (String.◌∷◌ c s) =
    let rest = split sep s in if code c == sep then "" ∷ rest else cons_word c rest

-- `sep.join(words)`
abbrev pub join : String → List String → String
join sep [] = ""
join sep (w ∷ []) = w
join sep (w ∷ v ∷ ws) = str_append w (str_append sep (join sep (v ∷ ws)))

-- The rest of a text that begins with `prefix`.
abbrev pub after_prefix : String → String → Option String
after_prefix String.[] s = some s
after_prefix (String.◌∷◌ p ps) String.[] = none
after_prefix (String.◌∷◌ p ps) (String.◌∷◌ c s) =
    let rest = after_prefix ps s in if code p == code c then rest else none

words_test : split b',' "a, b" ≡ "a" ∷ " b" ∷ []
words_test = refl

strip_test : strip "  백엔드 " ≡ "백엔드"
strip_test = refl

prefix_test : after_prefix "태그:" "태그: a" ≡ some " a"
prefix_test = refl

join_test : join ", " ("a" ∷ "b" ∷ []) ≡ "a, b"
join_test = refl
