-- ===== src/Store/Cooldowns/Tests.antt =====
-- A key that is rate limited at times 100 s and 150 s, and looked up at 170 s.
use byos.Prelude.{
  ℕ, ◌+◌, ◌*◌, ◌^◌, ◌≡◌, refl, min, String, Bool, true, false, some, str_eq, List, [], ◌∷◌, arith,
}
use byos.Time.{second, unix, of_unix, time_ptr}
use byos.Store.Accounts.{foreign_key, ok, err}
use byos.Store.Cooldowns.Rows.{State, find_row, upsert}
use byos.Store.Cooldowns.{Cooldown, scan_found, advance_rate_limit, write_rate_limit, is_active}
use byos.Store.Cooldowns.Backoff.{advance_rate_limit_lem, level_of, cooldown_of}
use byos.Store.Cooldowns.Invariant.{
  Call, gets, readies, advances, promotes, run, run-IsCapped, IsCapped,
}

abbrev limited : State
limited = record {
  account_id = "a";
  model = "grok-4.5";
  cooldown_until = some 160;
  backoff_level = 1;
  last_error_class = "rate_limit";
  last_error_at = some 100;
}

abbrev at_150 : ℕ
at_150 = 150 * second

abbrev is_a : String → Bool
is_a id = str_eq id "a"

first_limit :
    (advance_rate_limit is_a "a" "grok-4.5" "rate_limit" (100 * second) []).1 ≡ limited ∷ []
unfolding advance_rate_limit write_rate_limit upsert
first_limit = refl

advance_rate_limit_example :
    let before = find_row "a" "grok-4.5" (limited ∷ []) in
    let (r, after) = advance_rate_limit is_a "a" "grok-4.5" "rate_limit" at_150 (limited ∷ []) in
    (◌≡◌ {A = Bool} true false → (r ≡ err foreign_key) × (after ≡ limited ∷ []))
    × (◌≡◌ {A = Bool} true true
        → (c : Cooldown) × (r ≡ ok c)
          × (scan_found (find_row "a" "grok-4.5" after) ≡ some c)
          × (c.account_id ≡ "a")
          × (c.model ≡ "grok-4.5")
          × (c.last_error_class ≡ "rate_limit")
          × (is_active (cooldown_of before) (unix at_150) ≡ true
              → (c.until ≡ time_ptr (cooldown_of before)) × (c.backoff_level ≡ level_of before))
          × (is_active (cooldown_of before) (unix at_150) ≡ false
              → (c.until ≡ some (of_unix (unix at_150 + min (60 * 2 ^ level_of before) 1800)))
                × (c.backoff_level ≡ min (level_of before + 1) 6)))
advance_rate_limit_example =
    advance_rate_limit_lem is_a "a" "grok-4.5" "rate_limit" at_150 (limited ∷ [])

abbrev script : List ((String → Bool) × Call)
script =
    (is_a, advances "a" "grok-4.5" "rate_limit" (100 * second))
    ∷ (is_a, gets "a" "grok-4.5" (170 * second))
    ∷ (is_a, advances "a" "grok-4.5" "rate_limit" (171 * second))
    ∷ (is_a, readies "b" "grok-4.5" 0)
    ∷ (is_a, promotes (900 * second))
    ∷ []

run-IsCapped_example : IsCapped (run script [])
run-IsCapped_example = run-IsCapped script [] (omega arith) tt
