-- ===== src/Routing/Stream/Counts.antt =====
-- What is counted in the effects of the calls of a RoutedStream (internal/routing/stream.go), and what a
-- section under its mutex adds to them.
use byos.Prelude.{
  ℕ, suc, ◌+◌, ◌≤◌, ◌≡◌, refl, Bool, true, false, Option, none, some, List, [], ◌∷◌, str_eq,
  if◌then◌else◌, arith, Bool-cases, Option-cases, inl, inr,
}
use byos.Provider.{ErrorClassification}
use byos.Routing.Failure.{GoError, Failable, ok, fail, classify_execution_error}
use byos.Routing.LocalUsage.{Event, terminal_usage}
use byos.Routing.Stream.{
  Effect, returns, records, succeeds, closes, applies, RoutedStream, Answer, apply_unless_cancelled,
  finish_failure, finish_if, commit, take_first, begin_next, begin_failed, end_next, close,
}

-- The usages that are recorded, the outcomes that the cooldowns are told, and the times that the upstream
-- stream is closed.
abbrev pub recorded_in : List Effect → ℕ
recorded_in [] = 0
recorded_in (records delta ∷ log) = suc (recorded_in log)
recorded_in (returns e ∷ log) = recorded_in log
recorded_in (succeeds ∷ log) = recorded_in log
recorded_in (closes ∷ log) = recorded_in log
recorded_in (applies c ∷ log) = recorded_in log

abbrev pub outcomes_in : List Effect → ℕ
outcomes_in [] = 0
outcomes_in (records delta ∷ log) = outcomes_in log
outcomes_in (returns e ∷ log) = outcomes_in log
outcomes_in (succeeds ∷ log) = suc (outcomes_in log)
outcomes_in (closes ∷ log) = outcomes_in log
outcomes_in (applies c ∷ log) = suc (outcomes_in log)

abbrev pub closes_in : List Effect → ℕ
closes_in [] = 0
closes_in (records delta ∷ log) = closes_in log
closes_in (returns e ∷ log) = closes_in log
closes_in (succeeds ∷ log) = closes_in log
closes_in (closes ∷ log) = suc (closes_in log)
closes_in (applies c ∷ log) = closes_in log

-- The same for what is left to do of the calls.
abbrev pub in_all : (List Effect → ℕ) → List (List Effect) → ℕ
in_all f [] = 0
in_all f (todo ∷ left) = f todo + in_all f left

abbrev pub as_one : Bool → ℕ
as_one b = if b then 1 else 0

-- What a section under the mutex does: it leaves the stream as it is, with nothing to record, or it makes
-- it terminal.
pub data Entered (s : RoutedStream) (todo : List Effect) (t : RoutedStream) : Type 0 where
  stays :
      t.terminal ≡ s.terminal
      → t.recorded ≡ s.recorded
      → t.log ≡ s.log
      → recorded_in todo ≡ 0
      → outcomes_in todo ≡ 0
      → (s.terminal ≡ false → closes_in todo ≡ 0)
      → Entered s todo t
  stops :
      s.terminal ≡ false
      → t.terminal ≡ true
      → t.recorded ≡ s.recorded
      → t.log ≡ s.log
      → recorded_in todo ≡ 1
      → outcomes_in todo ≤ 1
      → 1 ≤ closes_in todo
      → Entered s todo t

-- The two ways of a guard.
if-cases :
    {A : Type 0} (P : A → Type 0) (b : Bool) (p q : A)
    → (b ≡ true → P p)
    → (b ≡ false → P q)
    → P (if b then p else q)
if-cases P true p q hp hq = hp refl
if-cases P false p q hp hq = hq refl

idle : (s : RoutedStream) → Entered s [] s
idle s = stays refl refl refl refl refl (λ _. refl)

apply_unless_cancelled-counts :
    (c : ErrorClassification)
    → (recorded_in (apply_unless_cancelled c) ≡ 0) × (outcomes_in (apply_unless_cancelled c) ≤ 1)
apply_unless_cancelled-counts c = elim (Bool-cases (str_eq c.class "cancelled")) [
  | inl k ↦ rw k (refl, omega arith)
  | inr k ↦ rw k (refl, omega arith)
]

finish_failure-Entered :
    (cause : GoError) (s : RoutedStream)
    → let (a, (todo, t)) = finish_failure cause s in Entered s todo t
unfolding finish_failure
finish_failure-Entered cause s =
    let (r, o) = apply_unless_cancelled-counts (classify_execution_error cause) in
    if-cases (λ (r : Answer × (List Effect × RoutedStream)). Entered s r.1.0 r.1.1) s.terminal _ _
      (λ t. idle s) (λ t. stops t refl refl refl (omega (arith, r)) o (omega arith))

commit-Entered :
    (e : Event) (first : Option Event) (s : RoutedStream)
    → s.terminal ≡ false
    → let (a, (todo, t)) = commit e (record s { first = first }) in Entered s todo t
unfolding commit finish_if
commit-Entered e first s t = elim (Option-cases (terminal_usage e)) [
  | inl plain ↦ rw plain (stays refl refl refl refl refl (λ _. refl))
  | inr (delta, ends) ↦ rw ends (stops t refl refl refl refl (omega arith) (omega arith))
]

take_first-Entered :
    (first : Option Event) (s : RoutedStream)
    → s.terminal ≡ false
    → let (a, (todo, t)) = take_first first s in Entered s todo t
unfolding take_first
take_first-Entered none s t = idle s
take_first-Entered (some e) s t = commit-Entered e none s t

pub begin_next-Entered :
    (cancelled : Option GoError) (s : RoutedStream)
    → let (a, (todo, t)) = begin_next cancelled s in Entered s todo t
unfolding begin_next begin_failed
begin_next-Entered (some cause) s = finish_failure-Entered cause s
begin_next-Entered none s =
    if-cases (λ (r : Option Answer × (List Effect × RoutedStream)). Entered s r.1.0 r.1.1)
      s.terminal _ _ (λ t. idle s) (λ t. take_first-Entered s.first s t)

pub end_next-Entered :
    (r : Failable Event) (s : RoutedStream) → let (a, (todo, t)) = end_next r s in Entered s todo t
unfolding end_next
end_next-Entered (fail cause) s = finish_failure-Entered cause s
end_next-Entered (ok e) s =
    if-cases (λ (r : Answer × (List Effect × RoutedStream)). Entered s r.1.0 r.1.1) s.terminal _ _
      (λ t. idle s) (λ t. commit-Entered e s.first s t)

pub close-Entered : (s : RoutedStream) → let (todo, t) = close s in Entered s todo t
unfolding close
close-Entered s =
    if-cases (λ (r : List Effect × RoutedStream). Entered s r.0 r.1) s.terminal _ _
      (λ t. stays refl refl refl refl refl (λ h. cc))
      (λ t. stops t refl refl refl refl (omega arith) (omega arith))
