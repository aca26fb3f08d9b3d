-- ===== src/Routing/Stream/Effects.antt =====
-- What the sections and the effects of the calls of a RoutedStream (internal/routing/stream.go) keep of the
-- counts.
use byos.Prelude.{
  ℕ, ◌+◌, ◌*◌, ◌≤◌, ◌≡◌, refl, sym, ◌∙◌, Bool, true, false, List, [], ◌∷◌, ◌++◌, arith,
}
use byos.Routing.LocalUsage.{LocalUsageDelta}
use byos.Routing.Stream.{
  Effect, returns, records, succeeds, closes, applies, RoutedStream, record_once, perform,
}
use byos.Routing.Stream.Counts.{
  recorded_in, outcomes_in, closes_in, in_all, as_one, Entered, stays, stops,
}

-- What the counts have in common in every state.
pub record Counts (has_recorder : Bool) (left : List (List Effect)) (s : RoutedStream)
    : Type 0 where
  pub recorded : recorded_in s.log ≡ as_one has_recorder * as_one s.recorded
  pub once : in_all recorded_in left + as_one s.recorded ≡ as_one s.terminal
  pub outcomes : outcomes_in s.log + in_all outcomes_in left ≤ as_one s.terminal
  pub unclosed : s.terminal ≡ false → closes_in s.log + in_all closes_in left ≡ 0
  pub closing : s.terminal ≡ true → 1 ≤ closes_in s.log + in_all closes_in left

in_all-append :
    (f : List Effect → ℕ) (before : List (List Effect)) (todo : List Effect)
    (after : List (List Effect))
    → in_all f (before ++ (todo ∷ after)) ≡ f todo + in_all f (before ++ after)
in_all-append f [] todo after = refl
in_all-append f (x ∷ before) todo after = omega (arith, in_all-append f before todo after)

module _ (has_recorder : Bool) where
  pub Entered-Counts :
      (left : List (List Effect)) (s : RoutedStream) (todo : List Effect) (t : RoutedStream)
      → Entered s todo t
      → Counts has_recorder left s
      → Counts has_recorder (todo ∷ left) t
  Entered-Counts left s todo t (stays same fresh log r o k) v = record {
    recorded = rw (log, fresh) v.recorded;
    once = rw (same, fresh) (omega (arith, v.once, r));
    outcomes = rw (same, log) (omega (arith, v.outcomes, o));
    unclosed = λ h. rw log (ground (arith, v.unclosed, k));
    closing = λ h. rw log (ground (arith, v.closing));
  }
  Entered-Counts left s todo t (stops was is fresh log r o k) v = record {
    recorded = rw (log, fresh) v.recorded;
    once = rw (is, fresh) (ground (arith, v.once, r));
    outcomes = rw (is, log) (ground (arith, v.outcomes, o));
    unclosed = λ h. cc;
    closing = λ h. rw log (omega (arith, k));
  }

  record_once-fresh :
      (delta : LocalUsageDelta) (s : RoutedStream)
      → s.recorded ≡ false
      → let t = record_once has_recorder delta s in
        (t.recorded ≡ true)
        × (t.terminal ≡ s.terminal)
        × (recorded_in t.log ≡ as_one has_recorder + recorded_in s.log)
        × (outcomes_in t.log ≡ outcomes_in s.log)
        × (closes_in t.log ≡ closes_in s.log)
  unfolding record_once
  record_once-fresh delta s h =
      (ground arith, ground arith, ground arith, ground arith, ground arith)

  module _ (before : List (List Effect)) (todo : List Effect) (after : List (List Effect))
      (s : RoutedStream) where
    perform-records :
        (delta : LocalUsageDelta)
        → Counts has_recorder (before ++ ((records delta ∷ todo) ∷ after)) s
        → Counts has_recorder (before ++ (todo ∷ after)) (record_once has_recorder delta s)
    perform-records delta v =
        let r = in_all-append recorded_in before (records delta ∷ todo) after in
        let r' = in_all-append recorded_in before todo after in
        let o = in_all-append outcomes_in before (records delta ∷ todo) after in
        let o' = in_all-append outcomes_in before todo after in
        let k = in_all-append closes_in before (records delta ∷ todo) after in
        let k' = in_all-append closes_in before todo after in
        let fresh : s.recorded ≡ false = ground (arith, v.once, r) in
        let (is, same, log, told, shut) = record_once-fresh delta s fresh in
        let before_it : recorded_in s.log ≡ 0 = ground (arith, v.recorded, fresh) in
        record {
          recorded = rw is (omega (arith, log, before_it));
          once = rw (is, same) (ground (arith, v.once, r, r', fresh));
          outcomes = rw (same, told) (omega (arith, v.outcomes, o, o'));
          unclosed = λ h. omega (arith, v.unclosed (sym same ∙ h), shut, k, k');
          closing = λ h. omega (arith, v.closing (sym same ∙ h), shut, k, k');
        }

    -- An effect that is not a record moves from what is left to the log.
    same_sums :
        (x : Effect)
        → Counts has_recorder (before ++ ((x ∷ todo) ∷ after)) s
        → (t : RoutedStream) → t.recorded ≡ s.recorded
        → t.terminal ≡ s.terminal
        → recorded_in t.log ≡ recorded_in s.log
        → in_all recorded_in (before ++ (todo ∷ after))
          ≡ in_all recorded_in (before ++ ((x ∷ todo) ∷ after))
        → outcomes_in t.log + in_all outcomes_in (before ++ (todo ∷ after))
          ≡ outcomes_in s.log + in_all outcomes_in (before ++ ((x ∷ todo) ∷ after))
        → closes_in t.log + in_all closes_in (before ++ (todo ∷ after))
          ≡ closes_in s.log + in_all closes_in (before ++ ((x ∷ todo) ∷ after))
        → Counts has_recorder (before ++ (todo ∷ after)) t
    same_sums x v t fresh same log r o k = record {
      recorded = rw (fresh, log) v.recorded;
      once = rw (fresh, same, r) v.once;
      outcomes = rw (same, o) v.outcomes;
      unclosed = λ h. k ∙ v.unclosed (sym same ∙ h);
      closing = λ h. rw k (v.closing (sym same ∙ h));
    }

    pub perform-Counts :
        (x : Effect)
        → Counts has_recorder (before ++ ((x ∷ todo) ∷ after)) s
        → Counts has_recorder (before ++ (todo ∷ after)) (perform has_recorder x s)
    unfolding perform
    perform-Counts x v =
        let r = in_all-append recorded_in before (x ∷ todo) after in
        let r' = in_all-append recorded_in before todo after in
        let o = in_all-append outcomes_in before (x ∷ todo) after in
        let o' = in_all-append outcomes_in before todo after in
        let k = in_all-append closes_in before (x ∷ todo) after in
        let k' = in_all-append closes_in before todo after in go x v r r' o o' k k'
      where
        sums : (List Effect → ℕ) → List Effect → Type 0
        sums f l = in_all f (before ++ (l ∷ after)) ≡ f l + in_all f (before ++ after)

        go :
            (x : Effect)
            → Counts has_recorder (before ++ ((x ∷ todo) ∷ after)) s
            → sums recorded_in (x ∷ todo)
            → sums recorded_in todo
            → sums outcomes_in (x ∷ todo)
            → sums outcomes_in todo
            → sums closes_in (x ∷ todo)
            → sums closes_in todo
            → Counts has_recorder (before ++ (todo ∷ after)) (perform has_recorder x s)
        go (records delta) v r r' o o' k k' = perform-records delta v
        go (returns e) v r r' o o' k k' =
            same_sums _ v _ refl refl refl (omega (arith, r, r')) (omega (arith, o, o'))
              (omega (arith, k, k'))
        go succeeds v r r' o o' k k' =
            same_sums _ v _ refl refl refl (omega (arith, r, r')) (omega (arith, o, o'))
              (omega (arith, k, k'))
        go closes v r r' o o' k k' =
            same_sums _ v _ refl refl refl (omega (arith, r, r')) (omega (arith, o, o'))
              (omega (arith, k, k'))
        go (applies c) v r r' o o' k k' =
            same_sums _ v _ refl refl refl (omega (arith, r, r')) (omega (arith, o, o'))
              (omega (arith, k, k'))
