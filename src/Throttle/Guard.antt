-- ===== src/Throttle/Guard.antt =====
-- internal/auththrottle/guard.go: `Evaluate` and `RecordFailure`. The mutex makes a call one step. The hash
-- of an address is a parameter, `verified` is what `verify` answers, and the log is a list of the
-- transitions.
pub mod Lockout
mod Tests
use byos.Prelude.{
  ℕ, ◌-◌, String, Bool, true, false, Option, none, some, List, [], ◌∷◌, ◌++◌, ltb, if◌then◌else◌,
}
use byos.Time.{unix, of_unix}
use byos.Throttle.Policy.{Policy, Transition, Status}
use byos.Throttle.Store.{Tables, check, record_failure, reset_source}

pub data Outcome : Type 0 where
  authenticated rejected : Outcome
  blocked : ℕ → Outcome

pub record Guard : Type 0 where
  pub tables : Tables
  pub log : List Transition

logged : Option Transition → List Transition → List Transition
logged none log = log
logged (some t) log = log ++ (t ∷ [])

-- What both methods do with a credential that is not valid.
reject : Policy → String → ℕ → Guard → Outcome × Guard
reject policy hash now g =
    let (transitions, tables) = record_failure hash now policy g.tables in
    (rejected, record { tables = tables; log = g.log ++ transitions })

accept : String → Guard → Outcome × Guard
accept hash g =
    let (t, tables) = reset_source hash g.tables in
    (authenticated, record { tables = tables; log = logged t g.log })

unless_blocked : Status → ℕ → (Guard → Outcome × Guard) → Guard → Outcome × Guard
unless_blocked status now next g =
    if ltb now status.blocked_until then (blocked (status.blocked_until - now), g) else next g

checked : Policy → String → ℕ → (Guard → Outcome × Guard) → Guard → Outcome × Guard
unfolding unless_blocked
checked policy hash now next g =
    let (status, tables) = check hash now policy g.tables in
    unless_blocked status now next (record { tables = tables; log = g.log ++ status.transitions })

abbrev pub whole_second : ℕ → ℕ
whole_second t = of_unix (unix t)

module _ {Address : Type 0} (hash : Address → String) (policy : Policy) where
  unfoldable pub evaluate : Address → Bool → ℕ → Guard → Outcome × Guard
  unfolding checked accept reject logged
  evaluate source verified clock = checked policy (hash source) (whole_second clock) (λ g.
      if verified
      then accept (hash source) g
      else reject policy (hash source) (whole_second clock) g)

  -- The method `RecordFailure` of the guard.
  unfoldable pub record_login_failure : Address → ℕ → Guard → Outcome × Guard
  unfolding checked reject
  record_login_failure source clock =
      checked policy (hash source) (whole_second clock)
        (reject policy (hash source) (whole_second clock))
