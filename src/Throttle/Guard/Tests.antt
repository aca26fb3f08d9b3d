-- ===== src/Throttle/Guard/Tests.antt =====
-- A source with four failures, the last at 100 s, and a fifth at 200 s.
use byos.Prelude.{
  ℕ, ◌+◌, ◌*◌, ◌≤◌, ◌≡◌, refl, String, Bool, true, false, none, some, [], ◌∷◌, str_ne, arith,
}
use byos.Time.{second}
use byos.Throttle.Policy.{default_policy}
use byos.Throttle.Store.{check, check_source, check_global}
use byos.Throttle.Store.Rows.{Source, find_source}
use byos.Throttle.Guard.{Guard, authenticated, rejected, blocked, evaluate}
use byos.Throttle.Guard.Lockout.{
  evaluate-locked, evaluate-authenticated, evaluate-locks, evaluate-other,
}

abbrev hash : String → String
hash address = address

abbrev four : Source
four = record {
  source_hash = "192.0.2.1";
  failure_count = 4;
  blocked_until = some 130;
  last_failure_at = some 100;
  updated_at = 100;
}

abbrev guard : Guard
guard = record { tables = record { sources = four ∷ []; global = none }; log = [] }

abbrev clock : ℕ
clock = 200 * second

found : find_source "192.0.2.1" guard.tables.sources ≡ some four
unfolding find_source
found = refl

fifth_rejected : (evaluate hash default_policy "192.0.2.1" false clock guard).0 ≡ rejected
unfolding evaluate check_source check_global check find_source
fifth_rejected = refl

accepted : (evaluate hash default_policy "192.0.2.1" true clock guard).0 ≡ authenticated
unfolding evaluate check_source check_global check find_source
accepted = refl

evaluate-locked_example :
    let (o, g') = evaluate hash default_policy "192.0.2.1" true (110 * second) guard in
    (wait : ℕ) × (o ≡ blocked wait)
    × (130 * second ≤ 110 * second + wait)
    × (g'.tables.sources ≡ four ∷ [])
evaluate-locked_example =
    evaluate-locked hash default_policy "192.0.2.1" true (110 * second) guard four 130 found refl
      (omega arith)

evaluate-authenticated_example :
    (◌≡◌ {A = Bool} true true)
    × (find_source "192.0.2.1"
          (evaluate hash default_policy "192.0.2.1" true clock guard).1.tables.sources
        ≡ none)
evaluate-authenticated_example =
    evaluate-authenticated hash default_policy "192.0.2.1" true clock guard accepted

evaluate-locks_example :
    (wait : ℕ) × ((evaluate hash default_policy "192.0.2.1" true
        (900 * second)
        (evaluate hash default_policy "192.0.2.1" false clock guard).1).0
      ≡ blocked wait)
evaluate-locks_example =
    evaluate-locks hash default_policy "192.0.2.1" clock (900 * second) true guard four found refl
      refl fifth_rejected (omega arith)

evaluate-other_example :
    find_source "192.0.2.1"
      (evaluate hash default_policy "192.0.2.9" false clock guard).1.tables.sources
    ≡ find_source "192.0.2.1" guard.tables.sources
evaluate-other_example =
    evaluate-other hash default_policy "192.0.2.9" false clock guard "192.0.2.1"
      (str_ne "192.0.2.9" "192.0.2.1" refl)
