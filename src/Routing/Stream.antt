-- ===== src/Routing/Stream.antt =====
-- internal/routing/stream.go: RoutedStream. A section under its mutex is one step; what a call does after
-- it has left the mutex (it records, tells the cooldowns, closes the upstream stream and returns its
-- event) is a list of effects, in the order of the code, each of which is a step of its own, so that
-- other calls may run in between. A call of `Next` that asks the upstream stream has a section before
-- and one after that. What was done is a log, newest first; errors of the recorder, the cooldowns and the
-- upstream's Close are dropped, as the code drops them.
pub mod Counts
pub mod Effects
pub mod Once
pub mod Finish
mod Tests
use byos.Prelude.{
  ℕ, suc, zero, String, Bool, true, false, not, Option, none, some, List, [], ◌∷◌, ◌++◌, str_eq,
  if◌then◌else◌,
}
use byos.Provider.{ErrorClassification}
use byos.Routing.Failure.{GoError, Failable, ok, fail, classify_execution_error}
use byos.Routing.LocalUsage.{LocalUsageDelta, Event, one_failure, terminal_usage}

pub data Effect : Type 0 where
  returns : Event → Effect
  records : LocalUsageDelta → Effect
  succeeds closes : Effect
  applies : ErrorClassification → Effect

pub record RoutedStream : Type 0 where
  pub first : Option Event
  pub committed : Bool
  pub terminal : Bool
  -- The state of `recordOnce`.
  pub recorded : Bool
  pub log : List Effect

pub data Answer : Type 0 where
  event : Event → Answer
  stream_is_closed : Answer
  execution : ErrorClassification → Answer

unfoldable pub new_routed_stream : Event → RoutedStream
new_routed_stream e = record {
  first = some e;
  committed = false;
  terminal = false;
  recorded = false;
  log = [];
}

abbrev pub logs : Effect → RoutedStream → RoutedStream
logs x s = record s { log = x ∷ s.log }

-- The calls that wait for the upstream stream, once another call of `Next` has begun.
abbrev pub waiting : Option Answer → ℕ → ℕ
waiting none n = suc n
waiting (some a) n = n

-- `has_recorder` says that `usage` is not nil.
module _ (has_recorder : Bool) where
  -- `record`.
  unfoldable pub record_once : LocalUsageDelta → RoutedStream → RoutedStream
  record_once delta s =
      if s.recorded
      then s
      else record s { recorded = true; log = if has_recorder then records delta ∷ s.log else s.log }

  -- One of the effects of a call.
  unfoldable pub perform : Effect → RoutedStream → RoutedStream
  unfolding record_once
  perform (records delta) s = record_once delta s
  perform (returns e) s = logs (returns e) s
  perform succeeds s = logs succeeds s
  perform closes s = logs closes s
  perform (applies c) s = logs (applies c) s

abbrev pub finish_success : LocalUsageDelta → List Effect
finish_success delta = records delta ∷ succeeds ∷ closes ∷ []

abbrev pub apply_unless_cancelled : ErrorClassification → List Effect
apply_unless_cancelled c = if str_eq c.class "cancelled" then [] else applies c ∷ []

unfoldable pub finish_failure : GoError → RoutedStream → Answer × (List Effect × RoutedStream)
finish_failure cause s = if s.terminal then (stream_is_closed, ([], s)) else (
  execution (classify_execution_error cause),
  (
    closes ∷ records one_failure ∷ apply_unless_cancelled (classify_execution_error cause),
    record s { terminal = true },
  ),
)

finish_if : Option LocalUsageDelta → RoutedStream → List Effect × RoutedStream
finish_if none s = ([], s)
finish_if (some delta) s = (finish_success delta, record s { terminal = true })

-- An event is handed out.
unfoldable pub commit : Event → RoutedStream → Answer × (List Effect × RoutedStream)
unfolding finish_if
commit e s =
    let (todo, s') = finish_if (terminal_usage e) (record s { committed = true }) in
    (event e, (todo ++ (returns e ∷ []), s'))

take_first : Option Event → RoutedStream → Option Answer × (List Effect × RoutedStream)
unfolding commit
take_first none s = (none, ([], s))
take_first (some e) s = let (a, r) = commit e (record s { first = none }) in (some a, r)

begin_failed : GoError → RoutedStream → Option Answer × (List Effect × RoutedStream)
unfolding finish_failure
begin_failed cause s = let (a, r) = finish_failure cause s in (some a, r)

-- `Next` up to the call of the upstream stream; `none` where that call is made.
unfoldable pub begin_next :
    Option GoError → RoutedStream → Option Answer × (List Effect × RoutedStream)
unfolding begin_failed take_first
begin_next (some cause) s = begin_failed cause s
begin_next none s = if s.terminal then (some stream_is_closed, ([], s)) else take_first s.first s

-- `Next` from the answer of the upstream stream on.
unfoldable pub end_next : Failable Event → RoutedStream → Answer × (List Effect × RoutedStream)
unfolding finish_failure commit
end_next (fail cause) s = finish_failure cause s
end_next (ok e) s = if s.terminal then (stream_is_closed, ([], s)) else commit e s

unfoldable pub close : RoutedStream → List Effect × RoutedStream
close s =
    if s.terminal
    then (closes ∷ [], s)
    else (records one_failure ∷ closes ∷ [], record s { terminal = true })

-- The states that calls can reach, in any interleaving, with the number of calls of `Next` that wait
-- for the upstream stream, and what is left to do of each call that has left its last section.
pub data Reaches (has_recorder : Bool) (e : Event)
    : ℕ → List (List Effect) → RoutedStream → Type 0 where
  opened : Reaches has_recorder e 0 [] (new_routed_stream e)
  begun :
      (n : ℕ) (left : List (List Effect)) (s : RoutedStream) (cancelled : Option GoError)
      → Reaches has_recorder e n left s
      → Reaches has_recorder e
          (waiting (begin_next cancelled s).0 n)
          ((begin_next cancelled s).1.0 ∷ left)
          (begin_next cancelled s).1.1
  ended :
      (n : ℕ) (left : List (List Effect)) (s : RoutedStream) (r : Failable Event)
      → Reaches has_recorder e (suc n) left s
      → Reaches has_recorder e n ((end_next r s).1.0 ∷ left) (end_next r s).1.1
  closed :
      (n : ℕ) (left : List (List Effect)) (s : RoutedStream)
      → Reaches has_recorder e n left s
      → Reaches has_recorder e n ((close s).0 ∷ left) (close s).1
  performed :
      (n : ℕ) (before : List (List Effect)) (x : Effect) (todo : List Effect)
      (after : List (List Effect)) (s : RoutedStream)
      → Reaches has_recorder e n (before ++ ((x ∷ todo) ∷ after)) s
      → Reaches has_recorder e n (before ++ (todo ∷ after)) (perform has_recorder x s)
