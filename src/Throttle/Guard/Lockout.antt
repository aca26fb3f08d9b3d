-- ===== src/Throttle/Guard/Lockout.antt =====
-- What `Evaluate` (internal/auththrottle/guard.go) does to a source that is blocked, fails or succeeds.
use byos.Prelude.{
  ℕ, suc, ◌+◌, ◌-◌, ◌≤◌, ◌<◌, ◌≡◌, ◌≢◌, refl, sym, ap, ◌∙◌, String, Bool, true, false, none, some,
  List, ◌++◌, ltb, ◌==◌, ◌⊎◌, arith, Bool-cases, inl, inr, if◌then◌else◌,
}
use byos.Time.{unix, of_unix, nullable_unix}
use byos.Throttle.Policy.{Policy, Transition, Status}
use byos.Throttle.Store.Rows.{
  Source, find_source, find_source-upsert, find_source-upsert_other, find_source-delete_source,
  find_source-delete_source_other,
}
use byos.Throttle.Store.{
  Tables, unix_time, is_older, check, prior_count, block_after, record_failure, reset_source,
}
use byos.Throttle.Store.Check.{check-locked, check-prior, check-other}
use byos.Throttle.Guard.{
  Guard, Outcome, authenticated, rejected, blocked, whole_second, checked, unless_blocked, accept,
  reject, evaluate,
}

either-sources :
    (b : Bool) (p q : List Transition × Tables) {rows : List Source}
    → p.1.sources ≡ rows
    → q.1.sources ≡ rows
    → (if b then p else q).1.sources ≡ rows
either-sources true p q hp hq = hp
either-sources false p q hp hq = hq

-- The row that a failure leaves.
record_failure-found :
    (hash : String) (now : ℕ) (policy : Policy) (t : Tables)
    → let count = suc (prior_count now policy (find_source hash t.sources)) in
      (r : Source) × (find_source hash (record_failure hash now policy t).1.sources ≡ some r)
      × (r.failure_count ≡ count)
      × (r.blocked_until ≡ nullable_unix (block_after now policy count).0)
unfolding record_failure
record_failure-found hash now policy t =
    let count = suc (prior_count now policy (find_source hash t.sources)) in
    let v : Source = record {
      source_hash = hash;
      failure_count = count;
      blocked_until = nullable_unix (block_after now policy count).0;
      last_failure_at = some (unix now);
      updated_at = unix now;
    } in
    (
      v,
      ap (find_source hash) (either-sources (count == 5) _ _ refl refl)
          ∙ find_source-upsert v t.sources,
      refl,
      refl,
    )

unless_blocked-hit :
    (status : Status) (now : ℕ) (next : Guard → Outcome × Guard) (g : Guard)
    → now < status.blocked_until
    → unless_blocked status now next g ≡ (blocked (status.blocked_until - now), g)
unfolding unless_blocked
unless_blocked-hit status now next g h = ground arith

unless_blocked-cases :
    (status : Status) (now : ℕ) (next : Guard → Outcome × Guard) (g : Guard)
    → (unless_blocked status now next g ≡ (blocked (status.blocked_until - now), g))
      ⊎ ((status.blocked_until ≤ now) × (unless_blocked status now next g ≡ next g))
unfolding unless_blocked
unless_blocked-cases status now next g = elim (Bool-cases (ltb now status.blocked_until)) [
  | inl h ↦ inl (ground arith)
  | inr h ↦ inr (ground arith, ground arith)
]

prior-recent :
    (now : ℕ) (policy : Policy) (r : Source)
    → r.failure_count ≡ 4
    → is_older r.last_failure_at policy.failure_reset_after now ≡ false
    → prior_count now policy (some r) ≡ 4
unfolding prior_count
prior-recent now policy r four recent = ground arith

record_failure-other :
    (hash : String) (now : ℕ) (policy : Policy) (t : Tables) (b : String)
    → hash ≢ b
    → find_source b (record_failure hash now policy t).1.sources ≡ find_source b t.sources
unfolding record_failure
record_failure-other hash now policy t b h =
    let count = suc (prior_count now policy (find_source hash t.sources)) in
    ap (find_source b) (either-sources (count == 5) _ _ refl refl)
    ∙ find_source-upsert_other _ t.sources b h

module _ {Address : Type 0} (hash : Address → String) (policy : Policy) where
  -- While the block of a source's row lasts, `Evaluate` answers that it is blocked, for at least as long
  -- as the row says, whether the credential is valid or not, and leaves the rows of all sources as they
  -- are.
  pub evaluate-locked :
      (source : Address) (verified : Bool) (clock : ℕ) (g : Guard) (r : Source) (until : ℕ)
      → find_source (hash source) g.tables.sources ≡ some r
      → r.blocked_until ≡ some until
      → whole_second clock < of_unix until
      → let (o, g') = evaluate hash policy source verified clock g in
        (wait : ℕ) × (o ≡ blocked wait)
        × (of_unix until ≤ whole_second clock + wait)
        × (g'.tables.sources ≡ g.tables.sources)
  unfolding evaluate checked unless_blocked
  evaluate-locked source verified clock g r until found at h =
      let now = whole_second clock in
      let status = (check (hash source) now policy g.tables).0 in
      let (same, above) = check-locked (hash source) now policy g.tables r found (rw at h) in
      let hit =
        unless_blocked-hit status now
          (λ v. if verified then accept (hash source) v else reject policy (hash source) now v)
          (record {
            tables = (check (hash source) now policy g.tables).1;
            log = g.log ++ status.transitions;
          })
          (later above) in
      (
        status.blocked_until - now,
        ap (λ p. p.0) hit,
        waits above,
        ap (λ p. p.1.tables.sources) hit ∙ same,
      )
    where
      later :
          unix_time r.blocked_until
            ≤ (check (hash source) (whole_second clock) policy g.tables).0.blocked_until
          → whole_second clock
            < (check (hash source) (whole_second clock) policy g.tables).0.blocked_until
      later above = let a : of_unix until ≤ _ = rw at at above in omega (arith, a, h)

      waits :
          unix_time r.blocked_until
            ≤ (check (hash source) (whole_second clock) policy g.tables).0.blocked_until
          → of_unix until
            ≤ whole_second clock
              + ((check (hash source) (whole_second clock) policy g.tables).0.blocked_until
                  - whole_second clock)
      waits above = let a : of_unix until ≤ _ = rw at at above in omega (arith, a, h)

  -- Where `Evaluate` rejects a credential that is not valid, the row of the source afterwards counts one
  -- failure more than before, where a count of five and one whose last failure is as old as the policy's
  -- reset time count as none, and its block, in whole seconds, is the one that the policy sets after that
  -- many failures.
  pub evaluate-rejected :
      (source : Address) (clock : ℕ) (g : Guard)
      → (evaluate hash policy source false clock g).0 ≡ rejected
      → let now = whole_second clock in
        let count = suc (prior_count now policy (find_source (hash source) g.tables.sources)) in
        (r : Source) × (find_source
            (hash source)
            (evaluate hash policy source false clock g).1.tables.sources
          ≡ some r)
        × (r.failure_count ≡ count)
        × (r.blocked_until ≡ nullable_unix (block_after now policy count).0)
  unfolding evaluate checked reject
  evaluate-rejected source clock g h =
      let now = whole_second clock in
      let status = (check (hash source) now policy g.tables).0 in
      let tables = (check (hash source) now policy g.tables).1 in
      elim (unless_blocked-cases status now (reject policy (hash source) now)
        (record { tables = tables; log = g.log ++ status.transitions })) [
          | inl q ↦ absurd (not_rejected (sym (ap (λ p. p.0) q) ∙ h))
          | inr (below, q) ↦
              let (r, found, counts, until) =
                record_failure-found (hash source) now policy tables in
              let prior = check-prior (hash source) now policy g.tables below in
              (
                r,
                ap (λ p. find_source (hash source) p.1.tables.sources) q ∙ found,
                counts ∙ ap suc prior,
                until ∙ ap (λ c. nullable_unix (block_after now policy (suc c)).0) prior,
              )
        ]
    where
      not_rejected : {wait : ℕ} → blocked wait ≡ rejected → ⊥
      not_rejected q = cc

  -- Where `Evaluate` authenticates, no row of the source is left, so its failures count from none again.
  pub evaluate-authenticated :
      (source : Address) (verified : Bool) (clock : ℕ) (g : Guard)
      → (evaluate hash policy source verified clock g).0 ≡ authenticated
      → (verified ≡ true)
        × (find_source (hash source) (evaluate hash policy source verified clock g).1.tables.sources
            ≡ none)
  unfolding evaluate checked accept reject reset_source
  evaluate-authenticated source verified clock g h =
      let now = whole_second clock in
      let status = (check (hash source) now policy g.tables).0 in
      let tables = (check (hash source) now policy g.tables).1 in
      let start : Guard = record { tables = tables; log = g.log ++ status.transitions } in
      let next : Guard → Outcome × Guard =
        λ v. if verified then accept (hash source) v else reject policy (hash source) now v in
      elim (unless_blocked-cases status now next start) [
        | inl q ↦ absurd (not_authenticated (sym (ap (λ p. p.0) q) ∙ h))
        | inr (below, q) ↦
            let (valid, gone) = settled verified start (sym (ap (λ p. p.0) q) ∙ h) in
            (valid, ap (λ p. find_source (hash source) p.1.tables.sources) q ∙ gone)
      ]
    where
      not_authenticated : {wait : ℕ} → blocked wait ≡ authenticated → ⊥
      not_authenticated q = cc

      settled :
          (b : Bool) (v : Guard)
          → (if b
              then accept (hash source) v
              else reject policy (hash source) (whole_second clock) v).0
            ≡ authenticated
          → (b ≡ true)
            × (find_source
                  (hash source)
                  (if b
                    then accept (hash source) v
                    else reject policy (hash source) (whole_second clock) v).1.tables.sources
                ≡ none)
      settled true v k = (refl, find_source-delete_source (hash source) v.tables.sources)
      settled false v k = absurd (cc)

  -- A fifth failure in time locks the source: if the row of the source counts four failures, the last one
  -- later than the policy's reset time ago, and `Evaluate` rejects a credential that is not valid, then
  -- afterwards, until the whole second in which the lock of the policy ends, it answers that the source is
  -- blocked, even to a valid credential.
  pub evaluate-locks :
      (source : Address) (clock later : ℕ) (verified : Bool) (g : Guard) (r : Source)
      → find_source (hash source) g.tables.sources ≡ some r
      → r.failure_count ≡ 4
      → is_older r.last_failure_at policy.failure_reset_after (whole_second clock) ≡ false
      → (evaluate hash policy source false clock g).0 ≡ rejected
      → whole_second later < whole_second (whole_second clock + policy.lock_after_five)
      → (wait : ℕ) × ((evaluate hash policy source verified later
            (evaluate hash policy source false clock g).1).0
          ≡ blocked wait)
  unfolding prior_count block_after
  evaluate-locks source clock later verified g r found four recent h soon =
      let now = whole_second clock in
      let (x, found', counts, until) = evaluate-rejected source clock g h in
      let four_before : prior_count now policy (find_source (hash source) g.tables.sources) ≡ 4 =
        ap (prior_count now policy) found ∙ prior-recent now policy r four recent in
      let locked : x.blocked_until ≡ some (unix (now + policy.lock_after_five)) =
        until ∙ ap (λ c. nullable_unix (block_after now policy (suc c)).0) four_before in
      let (wait, o, _, _) =
        evaluate-locked source verified later (evaluate hash policy source false clock g).1 x
          (unix (now + policy.lock_after_five)) found' locked soon in
      (wait, o)

  -- `Evaluate` for one source leaves the row of every source with another hash as it is.
  pub evaluate-other :
      (source : Address) (verified : Bool) (clock : ℕ) (g : Guard) (b : String)
      → hash source ≢ b
      → find_source b (evaluate hash policy source verified clock g).1.tables.sources
        ≡ find_source b g.tables.sources
  unfolding evaluate checked accept reject reset_source
  evaluate-other source verified clock g b h =
      let now = whole_second clock in
      let status = (check (hash source) now policy g.tables).0 in
      let tables = (check (hash source) now policy g.tables).1 in
      let start : Guard = record { tables = tables; log = g.log ++ status.transitions } in
      let next : Guard → Outcome × Guard =
        λ v. if verified then accept (hash source) v else reject policy (hash source) now v in
      elim (unless_blocked-cases status now next start) [
        | inl q ↦
            ap (λ p. find_source b p.1.tables.sources) q
            ∙ check-other (hash source) now policy g.tables b h
        | inr (below, q) ↦
            ap (λ p. find_source b p.1.tables.sources) q
            ∙ settled verified start
            ∙ check-other (hash source) now policy g.tables b h
      ]
    where
      settled :
          (valid : Bool) (v : Guard)
          → find_source b
              (if valid
                then accept (hash source) v
                else reject policy (hash source) (whole_second clock) v).1.tables.sources
            ≡ find_source b v.tables.sources
      settled true v = find_source-delete_source_other (hash source) v.tables.sources b h
      settled false v = record_failure-other (hash source) (whole_second clock) policy v.tables b h
