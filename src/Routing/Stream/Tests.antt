-- ===== src/Routing/Stream/Tests.antt =====
-- A stream whose first event is a delta, and whose second one ends the response; `Close` is called and
-- closes the upstream stream before the call that has the second event does anything.
use byos.Prelude.{◌+◌, ◌*◌, ◌≤◌, ◌≡◌, true, false, none, List, [], ◌∷◌}
use byos.Routing.Failure.{ok}
use byos.Routing.LocalUsage.{Event, LocalUsageDelta, terminal_usage}
use byos.Routing.Stream.{
  Effect, returns, records, succeeds, closes, RoutedStream, new_routed_stream, begin_next, end_next,
  close, Reaches, opened, begun, ended, closed, performed, perform, commit,
}
use byos.Routing.Stream.Counts.{recorded_in, outcomes_in, closes_in, in_all, as_one}
use byos.Routing.Stream.Once.{Reaches-once, Reaches-closes}

abbrev delta : Event
delta = record {
  event = "response.output_text.delta";
  raw = none;
  usage = record { input_tokens = 0; output_tokens = 0; total_tokens = 0; cache_read_tokens = 0 };
}

abbrev last : Event
last = record delta {
  event = "response.completed";
  usage = record { input_tokens = 7; output_tokens = 3; total_tokens = 10; cache_read_tokens = 0 };
}

abbrev used : LocalUsageDelta
used = record {
  requests = 1;
  failures = 0;
  input_tokens = 7;
  output_tokens = 3;
  cache_read_tokens = 0;
}

abbrev at_end : RoutedStream
at_end = record {
  first = none;
  committed = true;
  terminal = true;
  recorded = false;
  log = closes ∷ [];
}

-- What is left to do of the calls, the latest first.
abbrev left_over : List (List Effect)
left_over =
    [] ∷ (records used ∷ succeeds ∷ closes ∷ returns last ∷ []) ∷ [] ∷ (returns delta ∷ []) ∷ []

reached : Reaches true delta 0 left_over at_end
unfolding begin_next end_next close new_routed_stream commit terminal_usage perform
reached =
    performed 0 [] closes [] _ _
      (closed 0 _ _ (ended 0 _ _ (ok last) (begun 0 _ _ none (begun 0 [] _ none opened))))

Reaches-once_example :
    (recorded_in at_end.log + as_one true * in_all recorded_in left_over ≡ 1)
    × (outcomes_in at_end.log + in_all outcomes_in left_over ≤ 1)
Reaches-once_example = Reaches-once true reached

Reaches-closes_example :
    (at_end.terminal ≡ false → closes_in at_end.log + in_all closes_in left_over ≡ 0)
    × (at_end.terminal ≡ true → 1 ≤ closes_in at_end.log + in_all closes_in left_over)
Reaches-closes_example = Reaches-closes true reached
