-- ===== src/Devin/StreamMapper.antt =====
-- internal/devin/stream_mapper.go: StreamMapper. A method is a `Call`, which returns events or an error and
-- leaves the mapper changed in both cases; a section of a method is one too. `tools` and `toolOrder` are
-- one list, in the order of `toolOrder`, since a tool enters both at once. `is_blank` is the test
-- strings.TrimSpace(s) == "", and `is_json` is json.Valid.
pub mod Sections
pub mod Methods
pub mod Client
pub mod Refinement
pub mod Reading
pub mod Limits
mod Tests
use byos.Prelude.{
  ℕ, suc, zero, ◌+◌, String, Bool, true, false, not, Option, none, some, List, [], ◌∷◌, ◌++◌,
  length, ltb, ◌==◌, str_eq, ◌&&◌, ◌||◌, if◌then◌else◌,
}
use byos.Provider.{Usage}
use byos.Devin.Frames.{
  Text, is_empty, StopReason, unspecified, error, max_tokens, incomplete, partial, content_filter,
  ChatToolCall, GetChatMessageResponse, ModelUsageStats, Item, reasoning, message, function_call,
  Status, completed, incomplete_because, Payload, created, reasoning_delta, text_delta, item_added,
  arguments_delta, arguments_done, item_done, finished, Response, Event, checked_usage,
  without_prefix, fresh_part,
}

pub record MappedTool : Type 0 where
  pub id : String
  pub name : String
  pub arguments : Text
  pub output_index : ℕ
  pub done : Bool

pub record StreamMapper : Type 0 where
  pub selected_model : String
  pub response_id : String
  pub actual_model : String
  pub max_tool_bytes : ℕ
  pub created : Bool
  pub terminal : Bool
  pub reasoning_open : Bool
  pub reasoning_done : Bool
  pub thinking : Text
  pub signature : Text
  pub text : Text
  pub stop : StopReason
  pub usage : Usage
  pub tools : List MappedTool
  pub active_tool : String
  pub next_output : ℕ
  -- An index that is -1 is `none`.
  pub reasoning_index : Option ℕ
  pub text_index : Option ℕ
  pub sequence_number : ℕ
  pub output_items : ℕ → Option Item

pub data Error : Type 0 where
  malformed_stream tool_arguments_too_large invalid_client_config : Error

pub data Outcome : Type 0 where
  events : List Event → Outcome
  fails : Error → Outcome

abbrev pub Call : Type 0
Call = StreamMapper → Outcome × StreamMapper

-- A section whose events follow those of an earlier one.
abbrev pub prepend : List Event → Outcome × StreamMapper → Outcome × StreamMapper
prepend es (events fs, m) = (events (es ++ fs), m)
prepend es (fails e, m) = (fails e, m)

abbrev pub continue : Call → Outcome × StreamMapper → Outcome × StreamMapper
continue g (events es, m) = prepend es (g m)
continue g (fails e, m) = (fails e, m)

unfoldable pub and_then : Call → Call → Call
and_then f g m = continue g (f m)

unfoldable pub sets : (StreamMapper → StreamMapper) → Call
sets f m = (events [], f m)

unfoldable pub quiet : Call
quiet m = (events [], m)

unfoldable pub fail : Error → Call
fail e m = (fails e, m)

-- `event`: the next sequence number.
unfoldable pub emit : Payload → Call
emit p m = (
  events (record { sequence_number = m.sequence_number; payload = p } ∷ []),
  record m { sequence_number = suc m.sequence_number },
)

unfoldable pub model : StreamMapper → String
model m = if str_eq m.actual_model "" then m.selected_model else m.actual_model

unfoldable pub reasoning_item : StreamMapper → Item
reasoning_item m = reasoning m.thinking m.signature

abbrev pub assign : Option ℕ → Item → (ℕ → Option Item) → ℕ → Option Item
assign none item m j = m j
assign (some i) item m j = if j == i then some item else m j

abbrev pub opened : Option ℕ → ℕ → Option ℕ
opened none next = some next
opened (some i) next = some i

abbrev pub advanced : Option ℕ → ℕ → ℕ
advanced none next = suc next
advanced (some i) next = next

abbrev pub keeps : Item → Option ℕ → StreamMapper → StreamMapper
keeps item i m = record m { output_items = assign i item m.output_items }

unfoldable pub create : Call
unfolding and_then quiet emit sets model
create m =
    if m.created
    then quiet m
    else and_then (sets (λ n. record n { created = true })) (emit (created m.response_id (model m)))
        m

unfoldable pub finish_reasoning : Call
unfolding and_then emit sets reasoning_item
finish_reasoning m =
    and_then
      (sets (λ n.
        keeps (reasoning_item m) n.reasoning_index
          (record n { reasoning_open = false; reasoning_done = true })))
      (emit (item_done m.reasoning_index (reasoning_item m))) m

unfoldable pub close_reasoning : Call
unfolding finish_reasoning quiet
close_reasoning m = if m.reasoning_open && not m.reasoning_done then finish_reasoning m else quiet m

-- The assignments of `Push` before its first event.
abbrev pub actual_of : (String → Bool) → Option String → String → String
actual_of is_blank none old = old
actual_of is_blank (some uid) old = if is_blank uid then old else uid

abbrev pub identified : (String → Bool) → GetChatMessageResponse → StreamMapper → StreamMapper
identified is_blank frame m = record m {
  response_id =
      if not m.created && not (str_eq frame.message_id "") then frame.message_id else m.response_id;
  actual_model = actual_of is_blank frame.actual_model_uid m.actual_model;
  signature = if is_empty frame.delta_signature then m.signature else frame.delta_signature;
}

abbrev pub is_unspecified : StopReason → Bool
is_unspecified unspecified = true
is_unspecified _ = false

abbrev pub stopped : GetChatMessageResponse → StreamMapper → StreamMapper
stopped frame m = record m {
  stop = if is_unspecified frame.stop_reason then m.stop else frame.stop_reason;
}

unfoldable pub note_checked : Option Usage → Call
unfolding fail sets
note_checked none = fail malformed_stream
note_checked (some u) = sets (λ m. record m { usage = u })

unfoldable pub note_usage : Option ModelUsageStats → Call
unfolding note_checked quiet checked_usage
note_usage none = quiet
note_usage (some u) = note_checked (checked_usage u)

abbrev pub thought : Text → StreamMapper → StreamMapper
thought delta m = record m {
  reasoning_index = opened m.reasoning_index m.next_output;
  next_output = advanced m.reasoning_index m.next_output;
  reasoning_open = true;
  thinking = m.thinking ++ delta;
}

unfoldable pub push_thinking : Text → Call
unfolding and_then emit sets quiet
push_thinking delta =
    if is_empty delta then quiet else and_then (sets (thought delta)) (emit (reasoning_delta delta))

abbrev pub written : Text → StreamMapper → StreamMapper
written delta m = record m {
  text_index = opened m.text_index m.next_output;
  next_output = advanced m.text_index m.next_output;
  text = m.text ++ delta;
}

unfoldable pub push_text : Text → Call
unfolding and_then emit sets quiet close_reasoning
push_text delta =
    if is_empty delta
    then quiet
    else and_then close_reasoning (and_then (sets (written delta)) (emit (text_delta delta)))

unfoldable pub find_tool : String → List MappedTool → Option MappedTool
find_tool id [] = none
find_tool id (t ∷ ts) = if str_eq t.id id then some t else find_tool id ts

-- A write through the pointer that the map holds.
unfoldable pub replace_tool : MappedTool → List MappedTool → List MappedTool
replace_tool t [] = []
replace_tool t (u ∷ us) =
    let rest = replace_tool t us in if str_eq u.id t.id then t ∷ us else u ∷ rest

abbrev pub with_tool : MappedTool → StreamMapper → StreamMapper
with_tool t m = record m { tools = replace_tool t m.tools }

unfoldable pub append_arguments : MappedTool → Text → Call
unfolding and_then emit sets fail quiet replace_tool
append_arguments t delta m =
    if is_empty delta
    then quiet m
    else if ltb m.max_tool_bytes (length t.arguments + length delta)
    then fail tool_arguments_too_large m
    else and_then (sets (with_tool (record t { arguments = t.arguments ++ delta })))
        (emit (arguments_delta t.output_index t.id delta)) m

-- From the assignment of `activeTool`.
unfoldable pub write_arguments : MappedTool → Text → Call
unfolding and_then sets append_arguments without_prefix quiet
write_arguments t json = and_then (sets (λ m. record m { active_tool = t.id })) (
    if is_empty json
    then quiet
    else append_arguments t (fresh_part json (without_prefix t.arguments json)))

abbrev pub new_tool : String → String → ℕ → MappedTool
new_tool id name i = record { id = id; name = name; arguments = []; output_index = i; done = false }

unfoldable pub add_tool : MappedTool → Call
unfolding and_then sets emit
add_tool t =
    and_then (sets (λ m. record m { next_output = suc m.next_output; tools = m.tools ++ (t ∷ []) }))
      (emit (item_added t.output_index t.id t.name))

unfoldable pub push_found : String → ChatToolCall → Option MappedTool → Call
unfolding and_then fail add_tool write_arguments
push_found id call none m =
    if str_eq call.name ""
    then fail malformed_stream m
    else let t = new_tool id call.name m.next_output in
      and_then (add_tool t) (write_arguments t call.arguments_json) m
push_found id call (some t) m =
    if not (str_eq call.name "") && not (str_eq call.name t.name)
    then fail malformed_stream m
    else write_arguments t call.arguments_json m

unfoldable pub push_tool : ChatToolCall → Call
unfolding fail push_found find_tool
push_tool call m =
    let id = if str_eq call.id "" then m.active_tool else call.id in
    if str_eq id "" then fail malformed_stream m else push_found id call (find_tool id m.tools) m

unfoldable pub push_tools : List ChatToolCall → Call
unfolding quiet and_then push_tool
push_tools [] = quiet
push_tools (call ∷ calls) = and_then (push_tool call) (push_tools calls)

-- `Push` once its guards are passed.
unfoldable pub push_open : (String → Bool) → GetChatMessageResponse → Call
unfolding and_then sets create note_usage push_thinking push_text push_tools
push_open is_blank frame = and_then (sets (identified is_blank frame)) (
    and_then create (
      and_then (sets (stopped frame)) (
        and_then (note_usage frame.usage) (
          and_then (push_thinking frame.delta_thinking)
            (and_then (push_text frame.delta_text) (push_tools frame.delta_tool_calls))))))

unfoldable pub push : (String → Bool) → GetChatMessageResponse → Call
unfolding quiet fail push_open
push is_blank frame m =
    if m.terminal
    then quiet m
    else if m.reasoning_done
        && (not (is_empty frame.delta_thinking) || not (is_empty frame.delta_signature))
    then fail malformed_stream m
    else push_open is_blank frame m

-- The steps of `Finalize`.
unfoldable pub keep_reasoning : Call
unfolding sets reasoning_item
keep_reasoning = sets (λ m. keeps (reasoning_item m) m.reasoning_index m)

unfoldable pub finish_text : Call
unfolding quiet and_then sets emit
finish_text m =
    if is_empty m.text
    then quiet m
    else and_then (sets (keeps (message m.text) m.text_index))
        (emit (item_done m.text_index (message m.text))) m

abbrev pub call_item : MappedTool → Item
call_item t = function_call t.id t.name t.arguments

abbrev pub added : List Item → Option Item → List Item
added items none = items
added items (some item) = items ++ (item ∷ [])

-- The loop over the indexes below `nextOutput`.
unfoldable pub collect : ℕ → (ℕ → Option Item) → List Item
collect zero m = []
collect (suc n) m = added (collect n m) (m n)

abbrev pub status_of : StopReason → Status
status_of max_tokens = incomplete_because "max_output_tokens"
status_of incomplete = incomplete_because "incomplete"
status_of partial = incomplete_because "incomplete"
status_of content_filter = incomplete_because "content_filter"
status_of _ = completed

unfoldable pub response_of : StreamMapper → Response
unfolding collect model
response_of m = record {
  id = m.response_id;
  model = model m;
  status = status_of m.stop;
  output = collect m.next_output m.output_items;
  usage = m.usage;
}

-- The last event, and the assignment of `terminal` after it.
unfoldable pub finish : Call
unfolding and_then sets emit response_of
finish m = and_then (emit (finished (response_of m))) (sets (λ n. record n { terminal = true })) m

abbrev pub is_error : StopReason → Bool
is_error error = true
is_error _ = false

abbrev pub ids_of : List MappedTool → List String
ids_of [] = []
ids_of (t ∷ ts) = t.id ∷ ids_of ts

-- A nil tool would be a panic; `toolOrder` has the keys of `tools`, so there is none.
module _ (is_json : Text → Bool) where
  unfoldable pub finish_tool : MappedTool → Call
  unfolding fail and_then sets emit replace_tool
  finish_tool t =
      if not (is_json t.arguments)
      then fail malformed_stream
      else and_then (emit (arguments_done t.output_index t.id t.arguments)) (
          and_then (sets (keeps (call_item t) (some t.output_index))) (
            and_then (emit (item_done (some t.output_index) (call_item t)))
              (sets (with_tool (record t { done = true })))))

  unfoldable pub finish_found : Option MappedTool → Call
  unfolding fail finish_tool
  finish_found none = fail malformed_stream
  finish_found (some t) = finish_tool t

  unfoldable pub finish_tools : List String → Call
  unfolding quiet and_then finish_found find_tool
  finish_tools [] = quiet
  finish_tools (id ∷ ids) = and_then (λ m. finish_found (find_tool id m.tools) m) (finish_tools ids)

  unfoldable pub finalize : Call
  unfolding quiet fail and_then create close_reasoning keep_reasoning finish_text finish_tools
      finish
  finalize m =
      if m.terminal
      then quiet m
      else if is_error m.stop
      then fail malformed_stream m
      else and_then create
          (and_then close_reasoning (
            and_then keep_reasoning
              (and_then finish_text (λ n. and_then (finish_tools (ids_of n.tools)) finish n))))
          m

unfoldable pub new_stream_mapper : (String → Bool) → String → String → ℕ → Option StreamMapper
new_stream_mapper is_blank selected response_id max =
    if is_blank selected || max == 0
    then none
    else some (record {
      selected_model = selected;
      response_id = if str_eq response_id "" then "devin-response" else response_id;
      actual_model = "";
      max_tool_bytes = max;
      created = false;
      terminal = false;
      reasoning_open = false;
      reasoning_done = false;
      thinking = [];
      signature = [];
      text = [];
      stop = unspecified;
      usage = record {
        input_tokens = 0;
        output_tokens = 0;
        total_tokens = 0;
        cache_read_tokens = 0;
      };
      tools = [];
      active_tool = "";
      next_output = 0;
      reasoning_index = none;
      text_index = none;
      sequence_number = 0;
      output_items = λ _. none;
    })
