-- ===== src/Routing/Stream/Once.antt =====
-- How often a RoutedStream (internal/routing/stream.go) records, tells the cooldowns and closes the
-- upstream stream, whatever the interleaving of its calls.
use byos.Prelude.{ℕ, ◌+◌, ◌*◌, ◌≤◌, ◌≡◌, Bool, true, false, List, [], arith}
use byos.Routing.LocalUsage.{Event}
use byos.Routing.Stream.{
  Effect, RoutedStream, new_routed_stream, Reaches, opened, begun, ended, closed, performed,
}
use byos.Routing.Stream.Counts.{
  recorded_in, outcomes_in, closes_in, in_all, as_one, begin_next-Entered, end_next-Entered,
  close-Entered,
}
use byos.Routing.Stream.Effects.{Counts, Entered-Counts, perform-Counts}

module _ (has_recorder : Bool) where
  opened-Counts : (e : Event) → Counts has_recorder [] (new_routed_stream e)
  unfolding new_routed_stream
  opened-Counts e = record {
    recorded = omega arith;
    once = omega arith;
    outcomes = omega arith;
    unclosed = λ _. omega arith;
    closing = λ h. cc;
  }

  Reaches-Counts :
      {e : Event} {n : ℕ} {left : List (List Effect)} {s : RoutedStream}
      → Reaches has_recorder e n left s
      → Counts has_recorder left s
  Reaches-Counts {e} opened = opened-Counts e
  Reaches-Counts (begun n left s cancelled r) =
      Entered-Counts has_recorder left s _ _ (begin_next-Entered cancelled s) (Reaches-Counts r)
  Reaches-Counts (ended n left s answer r) =
      Entered-Counts has_recorder left s _ _ (end_next-Entered answer s) (Reaches-Counts r)
  Reaches-Counts (closed n left s r) =
      Entered-Counts has_recorder left s _ _ (close-Entered s) (Reaches-Counts r)
  Reaches-Counts (performed n before x todo after s r) =
      perform-Counts has_recorder before todo after s x (Reaches-Counts r)

  -- After any interleaving of calls on a new stream: while it is not terminal, nothing is recorded and
  -- the cooldowns are told nothing, nor is any of it left to do; once it is terminal, the usages that are
  -- recorded and those that are left to record are exactly one if there is a recorder, none otherwise, and
  -- the outcomes that the cooldowns are told and that they are still to be told are one at most.
  pub Reaches-once :
      {e : Event} {n : ℕ} {left : List (List Effect)} {s : RoutedStream}
      → Reaches has_recorder e n left s
      → (recorded_in s.log + as_one has_recorder * in_all recorded_in left
          ≡ as_one has_recorder * as_one s.terminal)
        × (outcomes_in s.log + in_all outcomes_in left ≤ as_one s.terminal)
  Reaches-once {left = left} {s = s} r =
      let v = Reaches-Counts r in (ground (arith, v.recorded, v.once), v.outcomes)

  -- After any interleaving of calls on a new stream, its upstream stream is neither closed nor left to be
  -- closed while it is not terminal, and once it is terminal, the upstream stream is closed or a call is
  -- left that will close it.
  pub Reaches-closes :
      {e : Event} {n : ℕ} {left : List (List Effect)} {s : RoutedStream}
      → Reaches has_recorder e n left s
      → (s.terminal ≡ false → closes_in s.log + in_all closes_in left ≡ 0)
        × (s.terminal ≡ true → 1 ≤ closes_in s.log + in_all closes_in left)
  Reaches-closes r = let v = Reaches-Counts r in (v.unclosed, v.closing)
