-- ===== src/Devin/StreamMapper/Sections.antt =====
-- A relation between the mapper before, the events and the mapper after that every section of a method
-- respects is respected by the whole method, and by what it leaves behind when it fails.
use mathlib.Core.Path.{subst}
use byos.Prelude.{
  suc, ◌+◌, ◌≤◌, ◌≡◌, refl, sym, String, Bool, true, false, not, Option, none, some, List, [], ◌∷◌,
  ◌++◌, length, ltb, Bool-cases, inl, inr, arith, str_eq, str_eq_refl, eq_iff, ◌&&◌, if◌then◌else◌,
}
use byos.Provider.{Usage}
use byos.Devin.Frames.{
  Text, is_empty, StopReason, ChatToolCall, GetChatMessageResponse, ModelUsageStats, checked_usage,
  message, Payload, reasoning_delta, text_delta, item_added, arguments_delta, arguments_done,
  item_done, Event, without_prefix, fresh_part,
}
use byos.Devin.StreamMapper.{
  MappedTool, StreamMapper, Outcome, events, fails, Call, prepend, continue, and_then, sets, quiet,
  fail, emit, Error, malformed_stream, reasoning_item, keeps, finish_reasoning, close_reasoning,
  stopped, note_checked, note_usage, thought, push_thinking, written, push_text, find_tool,
  with_tool, append_arguments, write_arguments, new_tool, add_tool, push_found, push_tool,
  push_tools, finish_text, call_item, finish_tool, finish_found, finish_tools,
}

-- One event, and the mapper after it.
abbrev pub one : Payload → StreamMapper → List Event
one p m = record { sequence_number = m.sequence_number; payload = p } ∷ []

abbrev pub bump : StreamMapper → StreamMapper
bump m = record m { sequence_number = suc m.sequence_number }

abbrev pub reasoned : StreamMapper → StreamMapper
reasoned m =
    keeps (reasoning_item m) m.reasoning_index
      (record m { reasoning_open = false; reasoning_done = true })

abbrev pub entered : MappedTool → StreamMapper → StreamMapper
entered t m = record m { next_output = suc m.next_output; tools = m.tools ++ (t ∷ []) }

pub here_tool :
    (id : String) (u : MappedTool) (us : List MappedTool) {t : MappedTool}
    → str_eq u.id id ≡ true
    → find_tool id (u ∷ us) ≡ some t
    → u ≡ t
unfolding find_tool
here_tool id u us e h = ground arith

pub skip_tool :
    (id : String) (u : MappedTool) (us : List MappedTool) {o : Option MappedTool}
    → str_eq u.id id ≡ false
    → find_tool id (u ∷ us) ≡ o
    → find_tool id us ≡ o
unfolding find_tool
skip_tool id u us e h = ground arith

-- What is found has the ID that was asked for.
pub find_tool-id :
    (id : String) (ts : List MappedTool) {t : MappedTool} → find_tool id ts ≡ some t → t.id ≡ id
unfolding find_tool
find_tool-id id [] h = absurd (cc)
find_tool-id id (u ∷ us) {t} h = elim (Bool-cases (str_eq u.id id)) [
  | inl e ↦ subst (λ x. x.id ≡ id) (here_tool id u us e h) ((eq_iff u.id id).0 e)
  | inr e ↦ find_tool-id id us {t = t} (skip_tool id u us e h)
]

find_tool_self :
    (id : String) (ts : List MappedTool) {t : MappedTool}
    → find_tool id ts ≡ some t
    → find_tool t.id ts ≡ some t
find_tool_self id ts {t} h = subst (λ x. find_tool x ts ≡ some t) (sym (find_tool-id id ts h)) h

pub find_tool-entered :
    (t : MappedTool) (ts : List MappedTool)
    → find_tool t.id ts ≡ none
    → find_tool t.id (ts ++ (t ∷ [])) ≡ some t
unfolding find_tool
find_tool-entered t [] h = ground (arith, str_eq_refl t.id)
find_tool-entered t (u ∷ us) h = elim (Bool-cases (str_eq u.id t.id)) [
  | inl e ↦ absurd (ground arith)
  | inr e ↦ rw e (find_tool-entered t us (ground arith))
]

and_left : (b c : Bool) → (b && c) ≡ true → b ≡ true
and_left true c h = refl
and_left false c h = h

abbrev activated : String → StreamMapper → StreamMapper
activated id m = record m { active_tool = id }

module _ (R : StreamMapper → List Event → StreamMapper → Type 0) where
  pub record IsStable : Type 0 where
    pub nothing : (m : StreamMapper) → R m [] m
    pub follows :
        {m n k : StreamMapper} {es fs : List Event} → R m es n → R n fs k → R m (es ++ fs) k
    pub notes :
        (m : StreamMapper) (s : StopReason) (u : Usage) (active : String)
        → R m [] (record m { stop = s; usage = u; active_tool = active })
    pub closes :
        (m : StreamMapper)
        → m.reasoning_open ≡ true
        → R m (one (item_done m.reasoning_index (reasoning_item m)) m) (bump (reasoned m))
    pub thinks :
        (m : StreamMapper) (delta : Text)
        → R m (one (reasoning_delta delta) m) (bump (thought delta m))
    pub writes :
        (m : StreamMapper) (delta : Text) → R m (one (text_delta delta) m) (bump (written delta m))
    pub adds :
        (m : StreamMapper) (id name : String)
        → find_tool id m.tools ≡ none
        → R m
            (one (item_added m.next_output id name) m)
            (bump (entered (new_tool id name m.next_output) m))
    pub appends :
        (m : StreamMapper) (t : MappedTool) (delta : Text)
        → find_tool t.id m.tools ≡ some t
        → length t.arguments + length delta ≤ m.max_tool_bytes
        → R m
            (one (arguments_delta t.output_index t.id delta) m)
            (bump (with_tool (record t { arguments = t.arguments ++ delta }) m))
    pub keeps_reasoning : (m : StreamMapper) → R m [] (keeps (reasoning_item m) m.reasoning_index m)
    pub finishes_text :
        (m : StreamMapper)
        → is_empty m.text ≡ false
        → R m
            (one (item_done m.text_index (message m.text)) m)
            (bump (keeps (message m.text) m.text_index m))
    pub declares :
        (m : StreamMapper) (t : MappedTool)
        → find_tool t.id m.tools ≡ some t
        → R m (one (arguments_done t.output_index t.id t.arguments) m) (bump m)
    pub completes :
        (m : StreamMapper) (t : MappedTool)
        → find_tool t.id m.tools ≡ some t
        → R m
            (one (item_done (some t.output_index) (call_item t)) m)
            (bump (keeps (call_item t) (some t.output_index) m))
    pub marks :
        (m : StreamMapper) (t : MappedTool)
        → find_tool t.id m.tools ≡ some t
        → R m [] (with_tool (record t { done = true }) m)

  -- An error drops the events that were made before it.
  abbrev pub Held : StreamMapper → Outcome × StreamMapper → Type 0
  Held m (events es, n) = R m es n
  Held m (fails e, n) = (es : List Event) × R m es n

  module _ (st : IsStable) where
    pub prepend-Held :
        {m n : StreamMapper} {es : List Event}
        → R m es n
        → (r : Outcome × StreamMapper) → Held n r
        → Held m (prepend es r)
    prepend-Held h (events fs, k) g = st.follows h g
    prepend-Held {m} {n} {es} h (fails e, k) g = (es ++ g.0, st.follows h g.1)

    continue-Held :
        (m : StreamMapper) (g : Call) (r : Outcome × StreamMapper)
        → Held m r
        → ((n : StreamMapper) → Held n (g n))
        → Held m (continue g r)
    continue-Held m g (events es, n) h k = prepend-Held h (g n) (k n)
    continue-Held m g (fails e, n) h k = h

    pub and_then-Held :
        (f g : Call) (m : StreamMapper)
        → Held m (f m)
        → ((n : StreamMapper) → Held n (g n))
        → Held m (and_then f g m)
    unfolding and_then
    and_then-Held f g m h k = continue-Held m g (f m) h k

    pub if-Held :
        (m : StreamMapper) (b : Bool) (x y : Outcome × StreamMapper)
        → (b ≡ true → Held m x)
        → (b ≡ false → Held m y)
        → Held m (if b then x else y)
    if-Held m true x y hx hy = hx refl
    if-Held m false x y hx hy = hy refl

    pub fail-Held : (e : Error) (m : StreamMapper) → Held m (fail e m)
    unfolding fail
    fail-Held e m = ([], st.nothing m)

    pub quiet-Held : (m : StreamMapper) → Held m (quiet m)
    unfolding quiet
    quiet-Held m = st.nothing m

    pub close_reasoning-Held : (m : StreamMapper) → Held m (close_reasoning m)
    unfolding close_reasoning finish_reasoning and_then sets emit quiet
    close_reasoning-Held m =
        if-Held m (m.reasoning_open && not m.reasoning_done) _ _
          (λ h. st.closes m (and_left m.reasoning_open _ h)) (λ h. st.nothing m)

    pub stopped-Held :
        (frame : GetChatMessageResponse) (m : StreamMapper) → Held m (sets (stopped frame) m)
    unfolding sets
    stopped-Held frame m = st.notes m (stopped frame m).stop m.usage m.active_tool

    note_checked-Held : (u : Option Usage) (m : StreamMapper) → Held m (note_checked u m)
    unfolding note_checked fail sets
    note_checked-Held none m = fail-Held malformed_stream m
    note_checked-Held (some u) m = st.notes m m.stop u m.active_tool

    pub note_usage-Held : (u : Option ModelUsageStats) (m : StreamMapper) → Held m (note_usage u m)
    unfolding note_usage
    note_usage-Held none m = quiet-Held m
    note_usage-Held (some u) m = note_checked-Held (checked_usage u) m

    pub push_thinking-Held : (delta : Text) (m : StreamMapper) → Held m (push_thinking delta m)
    unfolding push_thinking and_then sets emit quiet
    push_thinking-Held [] m = st.nothing m
    push_thinking-Held (c ∷ cs) m = st.thinks m (c ∷ cs)

    write-Held :
        (delta : Text) (m : StreamMapper)
        → Held m (and_then (sets (written delta)) (emit (text_delta delta)) m)
    unfolding and_then sets emit
    write-Held delta m = st.writes m delta

    pub push_text-Held : (delta : Text) (m : StreamMapper) → Held m (push_text delta m)
    unfolding push_text
    push_text-Held [] m = quiet-Held m
    push_text-Held (c ∷ cs) m =
        and_then-Held close_reasoning
          (and_then (sets (written (c ∷ cs))) (emit (text_delta (c ∷ cs)))) m
          (close_reasoning-Held m) (write-Held (c ∷ cs))

    append_arguments-Held :
        (t : MappedTool) (delta : Text) (m : StreamMapper)
        → find_tool t.id m.tools ≡ some t
        → Held m (append_arguments t delta m)
    unfolding append_arguments and_then sets emit fail quiet
    append_arguments-Held t [] m h = st.nothing m
    append_arguments-Held t (c ∷ cs) m h =
        if-Held m (ltb m.max_tool_bytes (length t.arguments + length (c ∷ cs))) _ _
          (λ over. ([], st.nothing m)) (λ within. st.appends m t (c ∷ cs) h (ground arith))

    write_arguments-Held :
        (t : MappedTool) (json : Text) (m : StreamMapper)
        → find_tool t.id m.tools ≡ some t
        → Held m (write_arguments t json m)
    unfolding write_arguments and_then sets quiet
    write_arguments-Held t [] m h = st.notes m m.stop m.usage t.id
    write_arguments-Held t (c ∷ cs) m h =
        prepend-Held (st.notes m m.stop m.usage t.id)
          (append_arguments t (fresh_part (c ∷ cs) (without_prefix t.arguments (c ∷ cs)))
            (activated t.id m))
          (append_arguments-Held t (fresh_part (c ∷ cs) (without_prefix t.arguments (c ∷ cs)))
            (activated t.id m) h)

    push_found-Held :
        (id : String) (call : ChatToolCall) (m : StreamMapper) (found : Option MappedTool)
        → find_tool id m.tools ≡ found
        → Held m (push_found id call found m)
    unfolding push_found and_then add_tool sets emit
    push_found-Held id call m none h =
        let t = new_tool id call.name m.next_output in
        let n = bump (entered t m) in
        if-Held m (str_eq call.name "") _ _ (λ unnamed. fail-Held malformed_stream m)
          (λ named.
            prepend-Held (st.adds m id call.name h) (write_arguments t call.arguments_json n)
              (write_arguments-Held t call.arguments_json n (find_tool-entered t m.tools h)))
    push_found-Held id call m (some t) h =
        if-Held m (not (str_eq call.name "") && not (str_eq call.name t.name)) _ _
          (λ renamed. fail-Held malformed_stream m)
          (λ same. write_arguments-Held t call.arguments_json m (find_tool_self id m.tools h))

    push_tool-Held : (call : ChatToolCall) (m : StreamMapper) → Held m (push_tool call m)
    unfolding push_tool
    push_tool-Held call m =
        let id = if str_eq call.id "" then m.active_tool else call.id in
        if-Held m (str_eq id "") _ _ (λ missing. fail-Held malformed_stream m)
          (λ present. push_found-Held id call m (find_tool id m.tools) refl)

    pub push_tools-Held :
        (calls : List ChatToolCall) (m : StreamMapper) → Held m (push_tools calls m)
    unfolding push_tools
    push_tools-Held [] m = quiet-Held m
    push_tools-Held (call ∷ calls) m =
        and_then-Held (push_tool call) (push_tools calls) m (push_tool-Held call m)
          (push_tools-Held calls)

    pub finish_text-Held : (m : StreamMapper) → Held m (finish_text m)
    unfolding finish_text and_then sets emit quiet
    finish_text-Held m =
        if-Held m (is_empty m.text) _ _ (λ silent. st.nothing m) (λ said. st.finishes_text m said)

    module _ (is_json : Text → Bool) where
      finish_tool-Held :
          (t : MappedTool) (m : StreamMapper)
          → find_tool t.id m.tools ≡ some t
          → Held m (finish_tool is_json t m)
      unfolding finish_tool and_then sets emit
      finish_tool-Held t m h = elim (Bool-cases (is_json t.arguments)) [
        | inl valid ↦ rw valid (
            st.follows (st.declares m t h)
              (st.follows (st.completes (bump m) t h) (st.marks _ t h)))
        | inr invalid ↦ rw invalid (fail-Held malformed_stream m)
      ]

      finish_found-Held :
          (id : String) (found : Option MappedTool) (m : StreamMapper)
          → find_tool id m.tools ≡ found
          → Held m (finish_found is_json found m)
      unfolding finish_found
      finish_found-Held id none m h = fail-Held malformed_stream m
      finish_found-Held id (some t) m h = finish_tool-Held t m (find_tool_self id m.tools h)

      pub finish_tools-Held :
          (ids : List String) (m : StreamMapper) → Held m (finish_tools is_json ids m)
      unfolding finish_tools
      finish_tools-Held [] m = quiet-Held m
      finish_tools-Held (id ∷ ids) m =
          and_then-Held (λ n. finish_found is_json (find_tool id n.tools) n)
            (finish_tools is_json ids) m (finish_found-Held id (find_tool id m.tools) m refl)
            (finish_tools-Held ids)
