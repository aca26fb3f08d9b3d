-- ===== src/Devin/StreamMapper/Methods.antt =====
-- What the sections of `push` and `finalize` respect, the methods respect.
use byos.Prelude.{String, Bool, not, List, ◌&&◌, ◌||◌}
use byos.Devin.Frames.{Text, is_empty, GetChatMessageResponse, Event}
use byos.Devin.StreamMapper.{
  StreamMapper, malformed_stream, Call, and_then, sets, create, identified, stopped, note_usage,
  push_thinking, push_text, push_tools, push_open, push, close_reasoning, keep_reasoning,
  finish_text, finish_tools, ids_of, finish, is_error, finalize,
}
use byos.Devin.StreamMapper.Sections.{
  IsStable, Held, and_then-Held, if-Held, quiet-Held, fail-Held, close_reasoning-Held, stopped-Held,
  note_usage-Held, push_thinking-Held, push_text-Held, push_tools-Held, finish_text-Held,
  finish_tools-Held,
}

-- `Push` after the first event, and `Finalize` between its first and its last.
abbrev pub push_rest : GetChatMessageResponse → Call
push_rest frame = and_then (sets (stopped frame)) (
    and_then (note_usage frame.usage) (
      and_then (push_thinking frame.delta_thinking)
        (and_then (push_text frame.delta_text) (push_tools frame.delta_tool_calls))))

module _ (R : StreamMapper → List Event → StreamMapper → Type 0) (st : IsStable R) where
  pub push_rest-Held :
      (frame : GetChatMessageResponse) (m : StreamMapper) → Held R m (push_rest frame m)
  push_rest-Held frame m =
      and_then-Held R st (sets (stopped frame)) _ m (stopped-Held R st frame m) (λ n.
        and_then-Held R st (note_usage frame.usage) _ n (note_usage-Held R st frame.usage n) (λ n.
          and_then-Held R st (push_thinking frame.delta_thinking) _ n
            (push_thinking-Held R st frame.delta_thinking n)
            (λ n.
              and_then-Held R st (push_text frame.delta_text) _ n
                (push_text-Held R st frame.delta_text n)
                (push_tools-Held R st frame.delta_tool_calls))))

  pub keep_reasoning-Held : (m : StreamMapper) → Held R m (keep_reasoning m)
  unfolding keep_reasoning sets
  keep_reasoning-Held m = st.keeps_reasoning m

  module _ (created_lem : (m : StreamMapper) → Held R m (create m))
      (identified_lem : (is_blank : String → Bool) (frame : GetChatMessageResponse)
          (m : StreamMapper)
        → Held R m (sets (identified is_blank frame) m))
      (finish_lem : (m : StreamMapper) → Held R m (finish m)) where
    pub push-Held :
        (is_blank : String → Bool) (frame : GetChatMessageResponse) (m : StreamMapper)
        → Held R m (push is_blank frame m)
    unfolding push push_open
    push-Held is_blank frame m =
        if-Held R st m m.terminal _ _ (λ ended. quiet-Held R st m)
          (λ open_.
            if-Held R st m
              (m.reasoning_done
                && (not (is_empty frame.delta_thinking) || not (is_empty frame.delta_signature)))
              _ _ (λ late. fail-Held R st malformed_stream m)
              (λ early.
                and_then-Held R st (sets (identified is_blank frame)) _ m
                  (identified_lem is_blank frame m)
                  (λ n.
                    and_then-Held R st create (push_rest frame) n (created_lem n)
                      (push_rest-Held frame))))

    pub finalize-Held : (is_json : Text → Bool) (m : StreamMapper) → Held R m (finalize is_json m)
    unfolding finalize
    finalize-Held is_json m =
        if-Held R st m m.terminal _ _ (λ ended. quiet-Held R st m)
          (λ open_.
            if-Held R st m (is_error m.stop) _ _ (λ failed. fail-Held R st malformed_stream m)
              (λ sound. and_then-Held R st create _ m (created_lem m) (λ n.
                and_then-Held R st close_reasoning _ n (close_reasoning-Held R st n) (λ n.
                  and_then-Held R st keep_reasoning _ n (keep_reasoning-Held n) (λ n.
                    and_then-Held R st finish_text _ n (finish_text-Held R st n) (λ n.
                      and_then-Held R st (finish_tools is_json (ids_of n.tools)) finish n
                        (finish_tools-Held R st is_json (ids_of n.tools) n) finish_lem))))))
