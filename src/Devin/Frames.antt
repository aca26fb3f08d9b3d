-- ===== src/Devin/Frames.antt =====
-- What internal/devin/stream_mapper.go reads and writes: the fields it uses of a frame of
-- internal/devin/proto, and the events. A text that grows is the list of its bytes. The JSON of an event
-- is data; json.Marshal does not fail on strings and integers.
use byos.Prelude.{
  ℕ, ◌+◌, ◌-◌, ◌^◌, ◌%◌, String, Bool, true, false, Option, none, some, List, [], ◌∷◌, ltb, ◌==◌,
  ◌||◌, if◌then◌else◌,
}
use byos.Provider.{Usage}

abbrev pub Text : Type 0
Text = List ℕ

abbrev pub is_empty {ℓ} : {A : Type ℓ} → List A → Bool
is_empty [] = true
is_empty (x ∷ xs) = false

pub data StopReason : Type 0 where
  unspecified incomplete stop_pattern max_tokens min_log_prob max_newlines exit_scope : StopReason
  nonfinite_logit_or_prob first_non_whitespace_line partial function_call content_filter :
      StopReason
  non_insertion error : StopReason

pub record ChatToolCall : Type 0 where
  pub id : String
  pub name : String
  pub arguments_json : Text

-- The counters are uint64.
pub record ModelUsageStats : Type 0 where
  pub input_tokens : ℕ
  pub output_tokens : ℕ
  pub cache_read_tokens : ℕ

pub record GetChatMessageResponse : Type 0 where
  pub message_id : String
  pub delta_text : Text
  pub stop_reason : StopReason
  pub delta_tool_calls : List ChatToolCall
  pub usage : Option ModelUsageStats
  pub delta_thinking : Text
  pub delta_signature : Text
  pub actual_model_uid : Option String

pub data Item : Type 0 where
  reasoning : (summary signature : Text) → Item
  message : (text : Text) → Item
  function_call : (id name : String) (arguments : Text) → Item

-- The status of the last event, with the reason of one that is incomplete.
pub data Status : Type 0 where
  completed : Status
  incomplete_because : String → Status

pub record Response : Type 0 where
  pub id : String
  pub model : String
  pub status : Status
  pub output : List Item
  pub usage : Usage

-- An output index is the Go integer: -1 is `none`.
pub data Payload : Type 0 where
  created : (id model : String) → Payload
  reasoning_delta text_delta : Text → Payload
  item_added : (output_index : ℕ) (id name : String) → Payload
  arguments_delta arguments_done : (output_index : ℕ) (id : String) → Text → Payload
  item_done : Option ℕ → Item → Payload
  finished : Response → Payload

pub record Event : Type 0 where
  pub sequence_number : ℕ
  pub payload : Payload

abbrev pub max_int64 : ℕ
max_int64 = 9223372036854775807

-- `checkedUsage`; `none` is an error.
unfoldable pub checked_usage : ModelUsageStats → Option Usage
checked_usage u =
    if ltb max_int64 u.input_tokens
      || (ltb max_int64 u.output_tokens
          || (ltb max_int64 u.cache_read_tokens
              || ltb (max_int64 - u.output_tokens) u.input_tokens))
    then none
    else some (record {
      input_tokens = u.input_tokens;
      output_tokens = u.output_tokens;
      total_tokens = (u.input_tokens + u.output_tokens) % 2 ^ 64;
      cache_read_tokens = u.cache_read_tokens;
    })

-- strings.HasPrefix with the slice after the prefix, else the whole text.
unfoldable pub without_prefix : Text → Text → Option Text
without_prefix [] s = some s
without_prefix (p ∷ ps) [] = none
without_prefix (p ∷ ps) (c ∷ cs) = if p == c then without_prefix ps cs else none

abbrev pub fresh_part : Text → Option Text → Text
fresh_part delta none = delta
fresh_part delta (some rest) = rest
