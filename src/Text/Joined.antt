-- ===== src/Text/Joined.antt =====
-- Words that are joined by commas and parted again.
use Prim.Native.Char.{Char, code}
use Prim.Native.String.{◌++◌ as str_append}
use text.Mathlib.TextLemmas.{nil-append, cons-append, append-nil}
use logit_be.Common.{
  ℕ, ◌==◌, ◌≡◌, refl, sym, ap, ◌∙◌, Bool, true, not, ◌&&◌, String, List, [], ◌∷◌, map, All, arith,
  inl, inr, Bool-cases, str_eq, eq_iff,
}
use logit_be.Text.Words.{strip, split, join, cons_word}

abbrev pub lacks : ℕ → String → Bool
lacks sep String.[] = true
lacks sep (String.◌∷◌ c s) = not (code c == sep) && lacks sep s

-- A word that stripping leaves, without a comma.
abbrev pub is_word : String → Bool
is_word w = str_eq (strip w) w && lacks b',' w

abbrev onto_first : String → List String → List String
onto_first w [] = w ∷ []
onto_first w (x ∷ xs) = str_append w x ∷ xs

cons_onto :
    (c : Char) (w : String) (xs : List String)
    → cons_word c (onto_first w xs) ≡ onto_first (String.◌∷◌ c w) xs
cons_onto c w [] = refl
cons_onto c w (x ∷ xs) = ap (λ y. y ∷ xs) (sym (cons-append c w x))

nil_onto : (xs : List String) (x : String) (ys : List String) → xs ≡ x ∷ ys → onto_first "" xs ≡ xs
nil_onto [] x ys h = absurd (ground arith)
nil_onto (y ∷ ys) x zs h = ap (λ v. v ∷ ys) (nil-append y)

split_word :
    (w s x : String) (xs : List String)
    → lacks b',' w ≡ true
    → split b',' s ≡ x ∷ xs
    → split b',' (str_append w s) ≡ onto_first w (split b',' s)
split_word String.[] s x xs h k = rw (nil-append s) (sym (nil_onto (split b',' s) x xs k))
split_word (String.◌∷◌ c w) s x xs h k = elim (Bool-cases (code c == b',')) [
  | inl a ↦ absurd (grind arith)
  | inr a ↦
      rw (cons-append c w s, a, split_word w s x xs (rw a at h) k) (cons_onto c w (split b',' s))
]

word_strip : (w : String) → is_word w ≡ true → strip w ≡ w
word_strip w h = (eq_iff (strip w) w).0 (ground arith)

word_lacks : (w : String) → is_word w ≡ true → lacks b',' w ≡ true
word_lacks w h = ground arith

abbrev Words : List String → Type 0
Words ws = All (λ w. is_word w ≡ true) ws

-- The parts of joined words, before they are stripped.
record Parted (ws : List String) : Type 0 where
  head : String
  tail : List String
  parts : split b',' (join ", " ws) ≡ head ∷ tail
  words : map strip (head ∷ tail) ≡ ws

split_one : (w : String) → is_word w ≡ true → split b',' w ≡ w ∷ []
split_one w h =
    sym (ap (λ s. split b',' s) (append-nil w))
    ∙ split_word w "" "" [] (word_lacks w h) refl
    ∙ ap (λ s. s ∷ []) (append-nil w)

split_comma :
    (s x : String) (xs : List String)
    → split b',' s ≡ x ∷ xs
    → split b',' (str_append ", " s) ≡ "" ∷ String.◌∷◌ " " x ∷ xs
split_comma s x xs h = ap (λ t. split b',' t) spelled ∙ ap (λ ys. "" ∷ cons_word " " ys) h
  where
    spelled : str_append ", " s ≡ String.◌∷◌ "," (String.◌∷◌ " " s)
    spelled =
        cons-append "," " " s
        ∙ ap (λ t. String.◌∷◌ "," t)
            (cons-append " " "" s ∙ ap (λ t. String.◌∷◌ " " t) (nil-append s))

parted : (w : String) (ws : List String) → Words (w ∷ ws) → Parted (w ∷ ws)
parted w [] h = record {
  head = w;
  tail = [];
  parts = split_one w h.0;
  words = ap (λ v. v ∷ []) (word_strip w h.0);
}
parted w (v ∷ ws) h =
    let p = parted v ws h.1 in
    let rest = join ", " (v ∷ ws) in
    let q = split_comma rest p.head p.tail p.parts in
    record {
      head = w;
      tail = String.◌∷◌ " " p.head ∷ p.tail;
      parts =
          split_word w (str_append ", " rest) "" (String.◌∷◌ " " p.head ∷ p.tail) (word_lacks w h.0)
            q
          ∙ ap (λ ys. onto_first w ys) q
          ∙ ap (λ s. s ∷ String.◌∷◌ " " p.head ∷ p.tail) (append-nil w);
      words =
          ap (λ s. s ∷ map strip (p.head ∷ p.tail)) (word_strip w h.0) ∙ ap (λ ys. w ∷ ys) p.words;
    }

-- Words that are joined with ", " are what is parted at the commas and stripped.
pub split-join :
    (w : String) (ws : List String)
    → All (λ v. is_word v ≡ true) (w ∷ ws)
    → map strip (split b',' (join ", " (w ∷ ws))) ≡ w ∷ ws
split-join w ws h = let p = parted w ws h in ap (λ xs. map strip xs) p.parts ∙ p.words
