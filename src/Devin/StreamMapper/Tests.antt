-- ===== src/Devin/StreamMapper/Tests.antt =====
-- A stream with a thought, two texts and a call whose arguments arrive twice, the second time in full.
use byos.Prelude.{
  ℕ, ◌+◌, ◌≤◌, ◌≡◌, refl, String, Bool, true, false, none, some, List, [], ◌∷◌, str_eq,
}
use byos.Provider.{Usage}
use byos.Devin.Frames.{
  Text, unspecified, Payload, created, reasoning_delta, text_delta, item_added, arguments_delta,
  item_done, reasoning, Event, max_int64, ModelUsageStats, checked_usage, ChatToolCall,
  GetChatMessageResponse,
}
use byos.Devin.StreamMapper.{StreamMapper, assign, new_stream_mapper}
use byos.Devin.StreamMapper.Limits.{Within, left_by, left_by-Within, checked_usage-exact}
use byos.Devin.StreamMapper.Client.{receive_all}
use byos.Devin.StreamMapper.Refinement.{client}
use byos.Devin.StreamMapper.Reading.{Request, pushes, run, new_client, run-client}

abbrev is_blank : String → Bool
is_blank s = str_eq s ""

abbrev is_json : Text → Bool
is_json [] = false
is_json (c ∷ cs) = true

abbrev frame : Text → Text → List ChatToolCall → GetChatMessageResponse
frame thinking text calls = record {
  message_id = "m";
  delta_text = text;
  stop_reason = unspecified;
  delta_tool_calls = calls;
  usage = none;
  delta_thinking = thinking;
  delta_signature = [];
  actual_model_uid = none;
}

abbrev call : String → String → Text → ChatToolCall
call id name arguments = record { id = id; name = name; arguments_json = arguments }

abbrev mapper : StreamMapper
mapper = record {
  selected_model = "swe";
  response_id = "devin-response";
  actual_model = "";
  max_tool_bytes = 10;
  created = false;
  terminal = false;
  reasoning_open = false;
  reasoning_done = false;
  thinking = [];
  signature = [];
  text = [];
  stop = unspecified;
  usage = record { input_tokens = 0; output_tokens = 0; total_tokens = 0; cache_read_tokens = 0 };
  tools = [];
  active_tool = "";
  next_output = 0;
  reasoning_index = none;
  text_index = none;
  sequence_number = 0;
  output_items = λ _. none;
}

is_new : new_stream_mapper is_blank "swe" "" 10 ≡ some mapper
unfolding new_stream_mapper
is_new = refl

abbrev requests : List Request
requests =
    pushes (frame (1 ∷ []) [] [])
    ∷ pushes (frame [] (2 ∷ []) (call "c" "look_up" (4 ∷ []) ∷ []))
    ∷ pushes (frame [] [] (call "" "" (4 ∷ 5 ∷ []) ∷ []))
    ∷ []

abbrev at : ℕ → Payload → Event
at i p = record { sequence_number = i; payload = p }

abbrev answers : List Event
answers =
    at 0 (created "m" "swe")
    ∷ at 1 (reasoning_delta (1 ∷ []))
    ∷ at 2 (item_done (some 0) (reasoning (1 ∷ []) []))
    ∷ at 3 (text_delta (2 ∷ []))
    ∷ at 4 (item_added 2 "c" "look_up")
    ∷ at 5 (arguments_delta 2 "c" (4 ∷ []))
    ∷ at 6 (arguments_delta 2 "c" (5 ∷ []))
    ∷ []

abbrev later : StreamMapper
later = record mapper {
  response_id = "m";
  created = true;
  reasoning_open = false;
  reasoning_done = true;
  thinking = 1 ∷ [];
  text = 2 ∷ [];
  tools =
      record { id = "c"; name = "look_up"; arguments = 4 ∷ 5 ∷ []; output_index = 2; done = false }
      ∷ [];
  active_tool = "c";
  next_output = 3;
  reasoning_index = some 0;
  text_index = some 1;
  sequence_number = 7;
  output_items = assign (some 0) (reasoning (1 ∷ []) []) (λ _. none);
}

ran : run is_blank is_json requests mapper ≡ some (answers, later)
unfolding run
ran = refl

run-client_example : receive_all answers new_client ≡ some (client later)
run-client_example =
    run-client is_blank is_json "swe" "" 10 requests mapper later answers is_new ran

left_by-Within_example : Within 10 (left_by is_blank is_json requests mapper)
left_by-Within_example = left_by-Within is_blank is_json "swe" "" 10 requests mapper is_new

abbrev spent : ModelUsageStats
spent = record { input_tokens = 5; output_tokens = 7; cache_read_tokens = 1 }

abbrev total : Usage
total = record { input_tokens = 5; output_tokens = 7; total_tokens = 12; cache_read_tokens = 1 }

counted : checked_usage spent ≡ some total
unfolding checked_usage
counted = refl

checked_usage-exact_example :
    (total.input_tokens ≡ spent.input_tokens)
    × (total.output_tokens ≡ spent.output_tokens)
    × (total.cache_read_tokens ≡ spent.cache_read_tokens)
    × (total.total_tokens ≡ spent.input_tokens + spent.output_tokens)
    × (spent.input_tokens ≤ max_int64)
    × (spent.output_tokens ≤ max_int64)
    × (spent.cache_read_tokens ≤ max_int64)
    × (spent.input_tokens + spent.output_tokens ≤ max_int64)
checked_usage-exact_example = checked_usage-exact spent total counted
