-- ===== src/Chats/Stream.antt =====
-- `generate_ai_response_stream` of src/chats/llm_service.py: what its background task puts in the queue,
-- and the pings that are sent while the queue is empty. What the language models answer is an argument.
use Prim.Native.String.{String as Text, ◌++◌ as str_append, count}
use text.Mathlib.TextLemmas.{nil-append, cons-append, length-cons}
use logit_be.Common.{
  ℕ, zero, suc, ◌≤◌, ◌≡◌, refl, ap, ◌∙◌, Bool, true, false, not, Option, none, some, String, List,
  [], ◌∷◌, ◌++◌, eq_iff, sym, inl, inr, Bool-cases, Option-cases, str_eq, if◌then◌else◌, arith,
}
use logit_be.Chats.{Chunk, ping, error, content, done}

-- `classify_request`
pub record Classification : Type 0 where
  pub is_cover_letter_request : Bool
  pub is_new_draft : Bool

-- What the calls give: `none` where they raise. A conversation gives chunks, and then breaks or not.
pub record Calls : Type 0 where
  pub classification : Option Classification
  pub chunks : List String
  pub breaks : Bool
  pub draft : Option String

-- `s[:n]` and `s[n:]`
abbrev pub text_take : ℕ → String → String
text_take zero s = ""
text_take (suc n) Text.[] = ""
text_take (suc n) (Text.◌∷◌ c s) = Text.◌∷◌ c (text_take n s)

abbrev pub text_drop : ℕ → String → String
text_drop zero s = s
text_drop (suc n) Text.[] = ""
text_drop (suc n) (Text.◌∷◌ c s) = text_drop n s

-- `draft[i:i + 5] for i in range(0, len(draft), 5)`, on fuel that the length suffices for.
unfoldable pub slices : ℕ → String → List Chunk
slices zero s = []
slices (suc n) Text.[] = []
slices (suc n) (Text.◌∷◌ c s) = content (text_take 5 (Text.◌∷◌ c s)) ∷ slices n (text_drop 4 s)

-- The chunks of a conversation; an empty one is not sent.
unfoldable pub talk : List String → List Chunk
talk [] = []
talk (c ∷ cs) = let rest = talk cs in if str_eq c "" then rest else content c ∷ rest

-- `_run`
unfoldable pub run : Calls → List Chunk
run m = elim m.classification [
  | none ↦ error ∷ []
  | some c ↦
      if not c.is_new_draft
      then talk m.chunks ++ (if m.breaks then error else done c.is_cover_letter_request) ∷ []
      else elim m.draft [ none ↦ error ∷ [] | some s ↦ slices (count s) s ++ done true ∷ [] ]
]

-- The loop over the queue: `waits` says how many pings come before each item.
unfoldable pub heartbeat : List ℕ → List Chunk → List Chunk
heartbeat [] items = items
heartbeat (zero ∷ waits) [] = []
heartbeat (zero ∷ waits) (x ∷ items) = x ∷ heartbeat waits items
heartbeat (suc n ∷ waits) items = ping ∷ heartbeat (n ∷ waits) items

unfoldable pub generate_ai_response_stream : Calls → List ℕ → List Chunk
generate_ai_response_stream m waits = heartbeat waits (run m)

-- A stretch of the stream with no end in it, and the text it carries.
abbrev pub spoken : List Chunk → String
spoken [] = ""
spoken (content c ∷ cs) = str_append c (spoken cs)
spoken (_ ∷ cs) = spoken cs

abbrev pub is_quiet : List Chunk → Bool
is_quiet [] = true
is_quiet (ping ∷ cs) = is_quiet cs
is_quiet (content c ∷ cs) = is_quiet cs
is_quiet (_ ∷ cs) = false

-- A stream that says `text`, ends with the chunk `end`, and may ping after that.
pub record Parts (cs : List Chunk) (text : String) (end : Chunk) : Type 0 where
  pub before : List Chunk
  pub after : List Chunk
  pub split : cs ≡ before ++ end ∷ after
  pub before_quiet : is_quiet before ≡ true
  pub after_quiet : is_quiet after ≡ true
  pub text_said : spoken before ≡ text

-- What a stream ends with, and what was said until then.
abbrev pub ends : Calls → Chunk
ends m = elim m.classification [
  | none ↦ error
  | some c ↦
      if not c.is_new_draft
      then (if m.breaks then error else done c.is_cover_letter_request)
      else elim m.draft [ none ↦ error | some s ↦ done true ]
]

abbrev joined : List String → String
joined [] = ""
joined (c ∷ cs) = str_append c (joined cs)

abbrev pub said : Calls → String
said m = elim m.classification [
  | none ↦ ""
  | some c ↦ if not c.is_new_draft then joined m.chunks else elim m.draft [ none ↦ "" | some s ↦ s ]
]

take_drop : (n : ℕ) (s : String) → str_append (text_take n s) (text_drop n s) ≡ s
take_drop zero s = nil-append s
take_drop (suc n) Text.[] = nil-append ""
take_drop (suc n) (Text.◌∷◌ c s) =
    cons-append c (text_take n s) (text_drop n s) ∙ ap (Text.◌∷◌ c) (take_drop n s)

count-drop : (n : ℕ) (s : String) → count (text_drop n s) ≤ count s
count-drop zero s = omega arith
count-drop (suc n) Text.[] = omega arith
count-drop (suc n) (Text.◌∷◌ c s) = omega (arith, count-drop n s, length-cons c s)

slices_quiet : (n : ℕ) (s : String) → is_quiet (slices n s) ≡ true
unfolding slices
slices_quiet zero s = refl
slices_quiet (suc n) Text.[] = refl
slices_quiet (suc n) (Text.◌∷◌ c s) = slices_quiet n (text_drop 4 s)

-- The slices of a draft are the whole of it.
spoken-slices : (n : ℕ) (s : String) → count s ≤ n → spoken (slices n s) ≡ s
unfolding slices
spoken-slices zero Text.[] h = refl
spoken-slices zero (Text.◌∷◌ c s) h = absurd (omega (arith, h, length-cons c s))
spoken-slices (suc n) Text.[] h = refl
spoken-slices (suc n) (Text.◌∷◌ c s) h =
    ap (str_append (text_take 5 (Text.◌∷◌ c s)))
      (spoken-slices n (text_drop 4 s) (omega (arith, count-drop 4 s, length-cons c s, h)))
    ∙ take_drop 5 (Text.◌∷◌ c s)

talk_quiet : (cs : List String) → is_quiet (talk cs) ≡ true
unfolding talk
talk_quiet [] = refl
talk_quiet (c ∷ cs) = ground (arith, talk_quiet cs)

spoken-talk : (cs : List String) → spoken (talk cs) ≡ joined cs
unfolding talk
spoken-talk [] = refl
spoken-talk (c ∷ cs) = elim (Bool-cases (str_eq c "")) [
  | inl e ↦ rw e rw ((eq_iff c "").0 e) (spoken-talk cs ∙ sym (nil-append (joined cs)))
  | inr e ↦ rw e (ap (str_append c) (spoken-talk cs))
]

-- The pings keep the parts of a stream.
heartbeat_quiet :
    (waits : List ℕ) (cs : List Chunk) → is_quiet cs ≡ true → is_quiet (heartbeat waits cs) ≡ true
unfolding heartbeat
heartbeat_quiet [] cs h = h
heartbeat_quiet (zero ∷ waits) [] h = refl
heartbeat_quiet (zero ∷ waits) (ping ∷ cs) h = heartbeat_quiet waits cs h
heartbeat_quiet (zero ∷ waits) (content c ∷ cs) h = heartbeat_quiet waits cs h
heartbeat_quiet (zero ∷ waits) (error ∷ cs) h = grind arith
heartbeat_quiet (zero ∷ waits) (done b ∷ cs) h = grind arith
heartbeat_quiet (suc n ∷ waits) cs h = heartbeat_quiet (n ∷ waits) cs h

whole :
    (cs : List Chunk) (end : Chunk) → is_quiet cs ≡ true → Parts (cs ++ end ∷ []) (spoken cs) end
whole cs end h = record {
  before = cs;
  after = [];
  split = refl;
  before_quiet = h;
  after_quiet = refl;
  text_said = refl;
}

module _ {cs : List Chunk} {text : String} {end : Chunk} where
  ping-Parts : Parts cs text end → Parts (ping ∷ cs) text end
  ping-Parts p = record {
    before = ping ∷ p.before;
    after = p.after;
    split = ap (λ (xs : List Chunk). ping ∷ xs) p.split;
    before_quiet = p.before_quiet;
    after_quiet = p.after_quiet;
    text_said = p.text_said;
  }

  content-Parts : (c : String) → Parts cs text end → Parts (content c ∷ cs) (str_append c text) end
  content-Parts c p = record {
    before = content c ∷ p.before;
    after = p.after;
    split = ap (λ (xs : List Chunk). content c ∷ xs) p.split;
    before_quiet = p.before_quiet;
    after_quiet = p.after_quiet;
    text_said = ap (str_append c) p.text_said;
  }

heartbeat-Parts :
    (waits : List ℕ) (cs : List Chunk) (end : Chunk)
    → is_quiet cs ≡ true
    → Parts (heartbeat waits (cs ++ end ∷ [])) (spoken cs) end
unfolding heartbeat
heartbeat-Parts [] cs end h = whole cs end h
heartbeat-Parts (suc n ∷ waits) cs end h = ping-Parts (heartbeat-Parts (n ∷ waits) cs end h)
heartbeat-Parts (zero ∷ waits) [] end h = record {
  before = [];
  after = heartbeat waits [];
  split = refl;
  before_quiet = refl;
  after_quiet = heartbeat_quiet waits [] refl;
  text_said = refl;
}
heartbeat-Parts (zero ∷ waits) (ping ∷ cs) end h = ping-Parts (heartbeat-Parts waits cs end h)
heartbeat-Parts (zero ∷ waits) (content c ∷ cs) end h =
    content-Parts c (heartbeat-Parts waits cs end h)
heartbeat-Parts (zero ∷ waits) (error ∷ cs) end h = grind arith
heartbeat-Parts (zero ∷ waits) (done b ∷ cs) end h = grind arith

-- The queue is a quiet stretch that says the text, and the end.
record Script (m : Calls) : Type 0 where
  pub stretch : List Chunk
  pub queue : run m ≡ stretch ++ ends m ∷ []
  pub quiet : is_quiet stretch ≡ true
  pub speaks : spoken stretch ≡ said m

run-Script : (m : Calls) → Script m
unfolding run
run-Script m = elim (Option-cases m.classification) [
  | inl e ↦ record { stretch = []; queue = rw e refl; quiet = refl; speaks = rw e refl }
  | inr (c, e) ↦ elim (Bool-cases c.is_new_draft) [
    | inl d ↦ elim (Option-cases m.draft) [
      | inl f ↦ record {
        stretch = [];
        queue = rw (e, d, f) refl;
        quiet = refl;
        speaks = rw (e, d, f) refl;
      }
      | inr (s, f) ↦ record {
        stretch = slices (count s) s;
        queue = rw (e, d, f) refl;
        quiet = slices_quiet (count s) s;
        speaks = rw (e, d, f) (spoken-slices (count s) s (omega arith));
      }
    ]
    | inr d ↦ record {
      stretch = talk m.chunks;
      queue = rw (e, d) refl;
      quiet = talk_quiet m.chunks;
      speaks = rw (e, d) (spoken-talk m.chunks);
    }
  ]
]

pub stream-Parts :
    (m : Calls) (waits : List ℕ) → Parts (generate_ai_response_stream m waits) (said m) (ends m)
unfolding generate_ai_response_stream
stream-Parts m waits =
    let s = run-Script m in
    rw s.queue rw (← s.speaks) (heartbeat-Parts waits s.stretch (ends m) s.quiet)
