-- ===== src/Routing/Candidates/Tests.antt =====
-- Two accounts that cool down until 70 and 50 ns at time 20, and one of another provider.
use byos.Prelude.{ℕ, ◌≡◌, refl, String, true, false, List, [], ◌∷◌, update}
use byos.Provider.{ErrorClassification, no_classification}
use byos.Routing.Scheduler.{Candidate, eligible_of}
use byos.Routing.Candidates.{pool, earliest_of, all_cooling_classification}
use byos.Routing.Candidates.Cooling.{Promises, all_cooling-Promises}

abbrev cooling : String → ℕ → Candidate
cooling id until = record {
  id = id;
  provider = "devin";
  enabled = true;
  valid = true;
  capabilities = λ _. false;
  capabilities_known = false;
  cooldown_until = update (λ _. 0) "*" until;
}

abbrev other : Candidate
other = record (cooling "c" 0) { provider = "xai" }

abbrev accounts : List Candidate
accounts = cooling "a" 70 ∷ cooling "b" 50 ∷ other ∷ []

abbrev limited : ErrorClassification
limited = record no_classification {
  class = "rate_limit";
  explicit_retry_after = true;
  cooldown_scope = "model";
  cooldown = 30;
  retry_after = 50;
  public_status = 429;
  public_code = "rate_limit_exceeded";
  public_message = "all available accounts are rate limited";
}

pooled : eligible_of (pool "devin" "swe-1-7" accounts) ≡ cooling "a" 70 ∷ cooling "b" 50 ∷ []
unfolding eligible_of pool
pooled = refl

all_cooling-Promises_example : Promises accounts "devin" "swe-1-7" 20 limited
unfolding all_cooling_classification eligible_of pool earliest_of
all_cooling-Promises_example = all_cooling-Promises accounts "devin" "swe-1-7" 20 limited refl
