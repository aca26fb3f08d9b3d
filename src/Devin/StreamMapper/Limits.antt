-- ===== src/Devin/StreamMapper/Limits.antt =====
-- The limits on what an upstream can make the mapper hold or count.
use mathlib.Core.Path.{subst}
use byos.Prelude.{
  ℕ, ◌+◌, ◌%◌, ◌^◌, ◌≤◌, ◌≡◌, refl, String, Bool, true, false, none, some, List, [], ◌∷◌, ◌++◌,
  length, length-append, str_eq, ◌||◌, ◌==◌, if◌then◌else◌, arith, All, All-append, Bool-cases, inl,
  inr,
}
use byos.Provider.{Usage}
use byos.Devin.Frames.{
  Text, ModelUsageStats, checked_usage, max_int64, Event, GetChatMessageResponse,
}
use byos.Devin.StreamMapper.{
  MappedTool, StreamMapper, Outcome, events, fails, new_stream_mapper, find_tool, replace_tool,
  sets, emit, quiet, and_then, create, identified, finish, push, finalize,
}
use byos.Devin.StreamMapper.Sections.{IsStable, Held, if-Held, here_tool, skip_tool}
use byos.Devin.StreamMapper.Methods.{push-Held, finalize-Held}
use byos.Devin.StreamMapper.Reading.{Request, pushes, finalizes, answer}

abbrev pub Fits : ℕ → MappedTool → Type 0
Fits limit t = length t.arguments ≤ limit

-- The limit of a mapper is `limit`, and the arguments of every call keep to it.
abbrev pub Within : ℕ → StreamMapper → Type 0
Within limit m = (m.max_tool_bytes ≡ limit) × All (Fits limit) m.tools

abbrev pub Stays : StreamMapper → List Event → StreamMapper → Type 0
Stays m es n = (limit : ℕ) → Within limit m → Within limit n

find_tool-All :
    (P : MappedTool → Type 0) (id : String) (ts : List MappedTool) {t : MappedTool}
    → All P ts
    → find_tool id ts ≡ some t
    → P t
unfolding find_tool
find_tool-All P id [] h e = absurd (cc)
find_tool-All P id (u ∷ us) {t} h e = elim (Bool-cases (str_eq u.id id)) [
  | inl same ↦ subst P (here_tool id u us same e) h.0
  | inr other ↦ find_tool-All P id us {t = t} h.1 (skip_tool id u us other e)
]

replace_tool-All :
    (P : MappedTool → Type 0) (t : MappedTool) (ts : List MappedTool)
    → All P ts
    → P t
    → All P (replace_tool t ts)
unfolding replace_tool
replace_tool-All P t [] h p = tt
replace_tool-All P t (u ∷ us) h p = elim (Bool-cases (str_eq u.id t.id)) [
  | inl same ↦ rw same (p, h.1)
  | inr other ↦ rw other (h.0, replace_tool-All P t us h.1 p)
]

Stays-IsStable : IsStable Stays
Stays-IsStable = record {
  nothing = λ m limit h. h;
  follows = λ {m} {n} {k} {es} {fs} f g limit h. g limit (f limit h);
  notes = λ m s u active limit h. h;
  closes = λ m o limit h. h;
  thinks = λ m delta limit h. h;
  writes = λ m delta limit h. h;
  adds = λ m id name e limit h. (h.0, All-append (Fits limit) m.tools _ h.1 (omega arith, tt));
  appends = λ m t delta e b limit h. (
    h.0,
    replace_tool-All (Fits limit) (record t { arguments = t.arguments ++ delta }) m.tools h.1
        (omega (arith, length-append t.arguments delta, b, h.0)),
  );
  keeps_reasoning = λ m limit h. h;
  finishes_text = λ m e limit h. h;
  declares = λ m t e limit h. h;
  completes = λ m t e limit h. h;
  marks = λ m t e limit h. (
    h.0,
    replace_tool-All (Fits limit) (record t { done = true }) m.tools h.1
        (find_tool-All (Fits limit) t.id m.tools h.1 e),
  );
}

create-Held : (m : StreamMapper) → Held Stays m (create m)
unfolding create quiet sets emit and_then
create-Held m = if-Held Stays Stays-IsStable m m.created _ _ (λ old limit h. h) (λ new limit h. h)

identified-Held :
    (is_blank : String → Bool) (frame : GetChatMessageResponse) (m : StreamMapper)
    → Held Stays m (sets (identified is_blank frame) m)
unfolding sets
identified-Held is_blank frame m = λ limit h. h

finish-Held : (m : StreamMapper) → Held Stays m (finish m)
unfolding finish and_then emit sets
finish-Held m = λ limit h. h

left-Within :
    (limit : ℕ) (m : StreamMapper) (r : Outcome × StreamMapper)
    → Held Stays m r
    → Within limit m
    → Within limit r.1
left-Within limit m (events es, n) f h = f limit h
left-Within limit m (fails e, n) f h = f.1 limit h

-- The mapper that is left when calls are made one after the other, failed ones too.
unfoldable pub left_by :
    (String → Bool) → (Text → Bool) → List Request → StreamMapper → StreamMapper
unfolding push finalize
left_by is_blank is_json [] m = m
left_by is_blank is_json (r ∷ rs) m = left_by is_blank is_json rs (answer is_blank is_json r m).1

answer-Within :
    (is_blank : String → Bool) (is_json : Text → Bool) (limit : ℕ) (r : Request) (m : StreamMapper)
    → Within limit m
    → Within limit (answer is_blank is_json r m).1
answer-Within is_blank is_json limit (pushes frame) m h =
    left-Within limit m (push is_blank frame m)
      (push-Held Stays Stays-IsStable create-Held identified-Held finish-Held is_blank frame m) h
answer-Within is_blank is_json limit finalizes m h =
    left-Within limit m (finalize is_json m)
      (finalize-Held Stays Stays-IsStable create-Held identified-Held finish-Held is_json m) h

run-Within :
    (is_blank : String → Bool) (is_json : Text → Bool) (limit : ℕ) (rs : List Request)
    (m : StreamMapper)
    → Within limit m
    → Within limit (left_by is_blank is_json rs m)
unfolding left_by
run-Within is_blank is_json limit [] m h = h
run-Within is_blank is_json limit (r ∷ rs) m h =
    run-Within is_blank is_json limit rs (answer is_blank is_json r m).1
      (answer-Within is_blank is_json limit r m h)

Within-of_new :
    (limit : ℕ) (b : Bool) (k m : StreamMapper)
    → (if b then none else some k) ≡ some m
    → Within limit k
    → Within limit m
Within-of_new limit true k m h e = absurd (cc)
Within-of_new limit false k m h e = let same : k ≡ m = cc in subst (Within limit) same e

new-Within :
    (is_blank : String → Bool) (selected id : String) (limit : ℕ) (m : StreamMapper)
    → new_stream_mapper is_blank selected id limit ≡ some m
    → Within limit m
unfolding new_stream_mapper
new-Within is_blank selected id limit m h =
    Within-of_new limit (is_blank selected || limit == 0) _ m h (refl, tt)

-- However calls of `Push` and `Finalize` succeed or fail on a new mapper with a limit, the arguments that
-- it holds for each tool call keep to the limit.
pub left_by-Within :
    (is_blank : String → Bool) (is_json : Text → Bool) (selected id : String) (limit : ℕ)
    (rs : List Request) (m : StreamMapper)
    → new_stream_mapper is_blank selected id limit ≡ some m
    → Within limit (left_by is_blank is_json rs m)
left_by-Within is_blank is_json selected id limit rs m h =
    run-Within is_blank is_json limit rs m (new-Within is_blank selected id limit m h)

counted : (b : Bool) (x y : Usage) → (if b then none else some x) ≡ some y → x ≡ y
counted true x y h = absurd (cc)
counted false x y h = cc

-- Counters that pass are exact int64 values, the total too, which is the sum of input and output: they
-- are neither cut nor wrapped.
pub checked_usage-exact :
    (u : ModelUsageStats) (v : Usage)
    → checked_usage u ≡ some v
    → (v.input_tokens ≡ u.input_tokens)
      × (v.output_tokens ≡ u.output_tokens)
      × (v.cache_read_tokens ≡ u.cache_read_tokens)
      × (v.total_tokens ≡ u.input_tokens + u.output_tokens)
      × (u.input_tokens ≤ max_int64)
      × (u.output_tokens ≤ max_int64)
      × (u.cache_read_tokens ≤ max_int64)
      × (u.input_tokens + u.output_tokens ≤ max_int64)
unfolding checked_usage
checked_usage-exact u v h =
    let sum : u.input_tokens + u.output_tokens ≤ max_int64 = ground arith in
    let cached : u.cache_read_tokens ≤ max_int64 = ground arith in
    let total : (u.input_tokens + u.output_tokens) % 2 ^ 64 ≡ u.input_tokens + u.output_tokens =
      omega (arith, sum) in
    subst
      (λ (w : Usage).
        (w.input_tokens ≡ u.input_tokens)
        × (w.output_tokens ≡ u.output_tokens)
        × (w.cache_read_tokens ≡ u.cache_read_tokens)
        × (w.total_tokens ≡ u.input_tokens + u.output_tokens)
        × (u.input_tokens ≤ max_int64)
        × (u.output_tokens ≤ max_int64)
        × (u.cache_read_tokens ≤ max_int64)
        × (u.input_tokens + u.output_tokens ≤ max_int64))
      (counted _ _ v h)
      (refl, refl, refl, total, omega (arith, sum), omega (arith, sum), cached, sum)
