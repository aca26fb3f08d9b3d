-- ===== src/Routing/Execute/Success.antt =====
-- What a successful `Execute` (internal/routing/execute.go) has done, and the bounds on its calls.
use byos.Prelude.{
  ℕ, ◌+◌, ◌≤◌, ◌≡◌, refl, sym, ap, ◌∙◌, String, Bool, true, false, Option, none, some, List, [],
  ◌∷◌, All, length, arith, str_eq, eq_iff, Option-cases, inl, inr, if◌then◌else◌,
}
use mathlib.Core.Path.{subst, subst₂}
use byos.Provider.{Kind, ResolvedModel, ErrorClassification}
use byos.Store.Accounts.{Account}
use byos.Store.Cooldowns
use byos.Store.Cooldowns.{Cooldown, ready, write_ready}
use byos.Store.Cooldowns.Lookup.{get-write_ready}
use byos.Routing.Cooldown.{Db, success}
use byos.Routing.Failure.{
  GoError, Failable, ok, fail, ExecuteError, Outcome, done, error, classify_execution_error,
}
use byos.Routing.LocalUsage.{Event, completed_usage, LocalUsageDelta, last_terminal, terminal_usage}
use byos.Routing.Scheduler.{Candidate}
use byos.Routing.Attempt.{
  World, Env, Step, ◌>>=◌, Action, generates, succeeds, records, get_account, record_usage,
  cooldown_success, ask_credential, recover_authentication, Recovery, retries, gives_up,
}
use byos.Routing.Attempt.Log.{record_usage-log, cooldown_success-log, cooldown_success-none}
use byos.Routing.Execute.{
  Result, Next, returns, moves_on, settle, fail_account, finished, retry_same, recovered,
  first_call, with_credential, attempt, follow, visit, exhausted, failover, generate, settled,
  succeed, execute_ordered,
}
use byos.Routing.Execute.Trace.{gens, recs, applied, failures, IsConfined, Adds, failover-Adds}

module _ {Credentials Credential Canonical Reply A : Type 0}
    (env : Env Credentials Credential Canonical) (model : ResolvedModel)
    (call : Account Credentials → Credential → Step (Failable Reply))
    (finish : Account Credentials → Reply → Step (Outcome A)) where
  -- The result comes from `finish`, right after a call that succeeded for an account of the provider.
  pub data Finished (o : A) (after : World) : Type 0 where
    from :
        (a : Account Credentials) (c : Credential) (r : Reply) (w : World)
        → a.provider ≡ model.provider
        → (call a c w).0 ≡ ok r
        → finish a r (call a c w).1 ≡ (done o, after)
        → Finished o after

  -- The same of a visit that returns.
  abbrev Ends : Next A × World → Type 0
  Ends p = (o : A) → p.0 ≡ returns (done o) → Finished o p.1

  fail_account-Ends :
      (a : Account Credentials) (c : ErrorClassification) (w : World)
      → Ends (fail_account env model call finish a c w)
  unfolding fail_account settle
  fail_account-Ends a c w o h = absurd (ground arith)

  finished-Ends :
      (a : Account Credentials) (c : Credential) (r : Reply) (w : World)
      → a.provider ≡ model.provider
      → (call a c w).0 ≡ ok r
      → Ends (finished env model call finish a r (call a c w).1)
  unfolding finished
  finished-Ends a c r w own called o h =
      from a c r w own called
        (λ i. (returned (finish a r (call a c w).1).0 o h i, (finish a r (call a c w).1).1))
    where
      returned : (x : Outcome A) (o : A) → returns x ≡ returns (done o) → x ≡ done o
      returned x o h = cc

  retry_same-Ends :
      (a : Account Credentials) (c : Credential) (r : Failable Reply) (w : World)
      → a.provider ≡ model.provider
      → (call a c w).0 ≡ r
      → Ends (retry_same env model call finish a r (call a c w).1)
  unfolding retry_same
  retry_same-Ends a c (ok r) w own called = finished-Ends a c r w own called
  retry_same-Ends a c (fail e) w own called =
      fail_account-Ends a (classify_execution_error e) (call a c w).1

  recovered-Ends :
      (a : Account Credentials) (r : Recovery Credential) (w : World)
      → a.provider ≡ model.provider
      → Ends (recovered env model call finish a r w)
  unfolding recovered
  recovered-Ends a (gives_up c) w own = fail_account-Ends a c w
  recovered-Ends a (retries c) w own = retry_same-Ends a c (call a c w).0 w own refl

  either-Ends :
      (b : Bool) (f g : Step (Next A)) (w : World)
      → Ends (f w)
      → Ends (g w)
      → Ends ((if b then f else g) w)
  either-Ends true f g w hf hg = hf
  either-Ends false f g w hf hg = hg

  first_call-Ends :
      (a : Account Credentials) (c : Credential) (r : Failable Reply) (w : World)
      → a.provider ≡ model.provider
      → (call a c w).0 ≡ r
      → Ends (first_call env model call finish a r (call a c w).1)
  unfolding first_call
  first_call-Ends a c (ok r) w own called = finished-Ends a c r w own called
  first_call-Ends a c (fail e) w own called =
      let k = classify_execution_error e in
      let (r, w') = recover_authentication env a.id e k (call a c w).1 in
      either-Ends k.refresh_same
        (recover_authentication env a.id e k >>= recovered env model call finish a)
        (fail_account env model call finish a k) (call a c w).1 (recovered-Ends a r w' own)
        (fail_account-Ends a k (call a c w).1)

  with_credential-Ends :
      (a : Account Credentials) (r : Failable Credential) (w : World)
      → a.provider ≡ model.provider
      → Ends (with_credential env model call finish a r w)
  unfolding with_credential
  with_credential-Ends a (ok c) w own = first_call-Ends a c (call a c w).0 w own refl
  with_credential-Ends a (fail e) w own = fail_account-Ends a (classify_execution_error e) w

  attempt-Ends :
      (a : Account Credentials) (w : World)
      → a.provider ≡ model.provider
      → Ends (attempt env model call finish a w)
  unfolding attempt
  attempt-Ends a w own = let (r, w') = ask_credential env a.id w in with_credential-Ends a r w' own

  abbrev EndsOutcome : Outcome A × World → Type 0
  EndsOutcome p = (o : A) → p.0 ≡ done o → Finished o p.1

  follow-Ends :
      (next : ErrorClassification → Step (Outcome A))
      → ((c : ErrorClassification) (w : World) → EndsOutcome (next c w))
      → (n : Next A) (w : World) → Ends (n, w)
      → EndsOutcome (follow env model call finish next n w)
  unfolding follow
  follow-Ends next hn (returns x) w h o e = h o (ap returns e)
  follow-Ends next hn (moves_on c) w h o e = hn c w o e

  choose-Ends :
      (b : Bool) (p q : Outcome A × World)
      → (b ≡ true → EndsOutcome p)
      → EndsOutcome q
      → EndsOutcome (if b then p else q)
  choose-Ends true p q hp hq = hp refl
  choose-Ends false p q hp hq = hq

  visit-Ends :
      (skip : Step (Outcome A)) (next : ErrorClassification → Step (Outcome A))
      → ((w : World) → EndsOutcome (skip w))
      → ((c : ErrorClassification) (w : World) → EndsOutcome (next c w))
      → (r : Failable (Account Credentials)) (w : World)
      → EndsOutcome (visit env model call finish skip next r w)
  unfolding visit
  visit-Ends skip next hs hn (fail e) w = λ o h. absurd (ground arith)
  visit-Ends skip next hs hn (ok a) w =
      let (n, w') = attempt env model call finish a w in
      choose-Ends (str_eq a.provider model.provider) (follow env model call finish next n w')
        (skip w)
        (λ own.
          follow-Ends next hn n w' (attempt-Ends a w ((eq_iff a.provider model.provider).0 own)))
        (hs w)

  pub failover-Ends :
      (ordered : List Candidate) (last : Option ErrorClassification) (w : World)
      → EndsOutcome (failover env model call finish ordered last w)
  unfolding failover exhausted
  failover-Ends [] none w o h = absurd (ground arith)
  failover-Ends [] (some c) w o h = absurd (ground arith)
  failover-Ends (candidate ∷ rest) last w o h =
      let (r, w') = get_account env candidate.id w in
      visit-Ends (failover env model call finish rest last)
        (λ c. failover env model call finish rest (some c)) (failover-Ends rest last)
        (λ c. failover-Ends rest (some c)) r w' o h

-- The log with the record of a usage, if there is a recorder.
abbrev pub reported : Bool → String → LocalUsageDelta → List Action → List Action
reported recording id delta log = if recording then records id delta ∷ log else log

last_terminal-failures :
    (events : List Event) (d : LocalUsageDelta) → last_terminal events ≡ some d → d.failures ≡ 0
unfolding last_terminal terminal_usage
last_terminal-failures [] d h = cc
last_terminal-failures (e ∷ events) d h = elim (Option-cases (last_terminal events)) [
  | inl none_later ↦ ground arith
  | inr (d', later) ↦ ground (arith, last_terminal-failures events d' later)
]

completed_usage-failures : (events : List Event) → (completed_usage events).failures ≡ 0
unfolding completed_usage
completed_usage-failures events = elim (Option-cases (last_terminal events)) [
  | inl e ↦ ground arith
  | inr (d, e) ↦ ground (arith, last_terminal-failures events d e)
]

reported-Adds :
    (owner : Kind) (recording : Bool) (id model : String) (events : List Event) (log : List Action)
    → Adds owner recording 0 0 log
        (reported recording id (completed_usage events) (succeeds id model ∷ log))
reported-Adds owner true id model events log = record {
  called = omega arith;
  recovered_within = omega arith;
  recoveries_stay = omega arith;
  confined = λ h. (tt, (tt, h));
  recorded = λ _. omega (arith, completed_usage-failures events);
}
reported-Adds owner false id model events log = record {
  called = omega arith;
  recovered_within = omega arith;
  recoveries_stay = omega arith;
  confined = λ h. (tt, h);
  recorded = λ e. refl;
}

module _ {Credentials Credential Canonical : Type 0} (env : Env Credentials Credential Canonical)
    (model : ResolvedModel) (canonical : Canonical) where
  -- The account that a success is for is there, or the success fails.
  success-states :
      (id name : String) (db : Db)
      → (success id name db).0 ≡ none
      → (success id name db).1.states ≡ write_ready id name db.states
  unfolding success ready
  success-states id name db h = ground arith

  cooldown_success-states :
      (id name : String) (w : World)
      → (cooldown_success env id name w).0 ≡ none
      → (cooldown_success env id name w).1.db.states ≡ write_ready id name w.db.states
  unfolding cooldown_success
  cooldown_success-states id name w h =
      success-states id name w.db (cooldown_success-none env id name w h)

  record_usage-db :
      (id : String) (d : LocalUsageDelta) (w : World) → (record_usage env id d w).1.db ≡ w.db
  unfolding record_usage
  record_usage-db id d w = ground arith

  result_of : Account Credentials → List Event → Result
  result_of a events = record { model = model.upstream_name; account_id = a.id; events = events }

  -- A result is returned only where the success did not fail.
  settled-done :
      (a : Account Credentials) (events : List Event) (e : Option GoError) (w : World) (r : Result)
      (after : World)
      → settled env model a events e w ≡ (done r, after)
      → (e ≡ none)
        × (result_of a events ≡ r)
        × ((record_usage env a.id (completed_usage events) w).1 ≡ after)
  unfolding settled result_of
  settled-done a events (some e) w r after h = absurd (failing (ap (λ p. p.0) h))
    where
      failing : {x : ExecuteError} {y : Result} → ◌≡◌ {A = Outcome Result} (error x) (done y) → ⊥
      failing h = cc
  settled-done a events none w r after h = (refl, same_result (ap (λ p. p.0) h), ap (λ p. p.1) h)
    where
      same_result : {x y : Result} → ◌≡◌ {A = Outcome Result} (done x) (done y) → x ≡ y
      same_result h = cc

  -- What `execute-done` says, of the world after `succeed`.
  abbrev Reported : Result → World → Type 0
  Reported r after =
      (r.model ≡ model.upstream_name)
      × (rest : List Action) × (after.log
          ≡ reported env.has_recorder r.account_id (completed_usage r.events)
              (succeeds r.account_id r.model ∷ generates r.account_id model.provider ∷ rest))
      × ((later : ℕ)
          → (c : Cooldown) × ((Cooldowns.get r.account_id r.model later after.db.states).0 ≡ some c)
            × (c.until ≡ none))

  succeeded :
      (a : Account Credentials) (c : Credential) (events : List Event) (w : World)
      → a.provider ≡ model.provider
      → let v = (generate env model canonical a c w).1 in
        (cooldown_success env a.id model.upstream_name v).0 ≡ none
        → let v = (generate env model canonical a c w).1 in
          let u = (cooldown_success env a.id model.upstream_name v).1 in
          Reported (result_of a events) (record_usage env a.id (completed_usage events) u).1
  unfolding generate result_of
  succeeded a c events w own h =
      let v = (generate env model canonical a c w).1 in
      let u = (cooldown_success env a.id model.upstream_name v).1 in
      (
        refl,
        w.log,
        record_usage-log env a.id (completed_usage events) u
            ∙ ap (reported env.has_recorder a.id (completed_usage events))
                (cooldown_success-log env a.id model.upstream_name v)
            ∙ ap
                (λ k.
                  reported env.has_recorder a.id (completed_usage events)
                    (succeeds a.id model.upstream_name ∷ generates a.id k ∷ w.log))
                own,
        λ later.
            let (x, found, free, level) =
              get-write_ready a.id model.upstream_name later v.db.states in
            (
              x,
              rw
                  (
                    record_usage-db a.id (completed_usage events) u,
                    cooldown_success-states a.id model.upstream_name v h,
                  )
                  found,
              free,
            ),
      )

  succeed-done :
      (a : Account Credentials) (c : Credential) (events : List Event) (w : World) (r : Result)
      (after : World)
      → a.provider ≡ model.provider
      → succeed env model a events (generate env model canonical a c w).1 ≡ (done r, after)
      → Reported r after
  unfolding succeed
  succeed-done a c events w r after own e =
      let v = (generate env model canonical a c w).1 in
      let (fine, same, end) =
        settled-done a events (cooldown_success env a.id model.upstream_name v).0
          (cooldown_success env a.id model.upstream_name v).1 r after e in
      subst₂ Reported same end (succeeded a c events w own fine)

  settled-Adds :
      (a : Account Credentials) (events : List Event) (e : Option GoError) (w : World)
      (log : List Action)
      → w.log ≡ succeeds a.id model.upstream_name ∷ log
      → Adds model.provider env.has_recorder 0 0 log (settled env model a events e w).1.log
  unfolding settled
  settled-Adds a events (some e) w log h =
      subst (λ l. Adds model.provider env.has_recorder 0 0 log l) (sym h)
        (record {
          called = omega arith;
          recovered_within = omega arith;
          recoveries_stay = omega arith;
          confined = λ k. (tt, k);
          recorded = λ _. refl;
        })
  settled-Adds a events none w log h =
      subst (λ l. Adds model.provider env.has_recorder 0 0 log l)
        (sym (
          record_usage-log env a.id (completed_usage events) w
          ∙ ap (reported env.has_recorder a.id (completed_usage events)) h))
        (reported-Adds model.provider env.has_recorder a.id model.upstream_name events log)

  succeed-Adds :
      (a : Account Credentials) (events : List Event) (w : World)
      → Adds model.provider env.has_recorder 0 0 w.log (succeed env model a events w).1.log
  unfolding succeed
  succeed-Adds a events w =
      settled-Adds a events (cooldown_success env a.id model.upstream_name w).0
        (cooldown_success env a.id model.upstream_name w).1 w.log
        (cooldown_success-log env a.id model.upstream_name w)

  -- Begun with an empty log, `Execute` over its ordered candidates calls a provider only for accounts of
  -- the model's own provider, at most once for each candidate and once more for each recovery, recovers
  -- at most once for each candidate, and, if there is a recorder, records failures as often as it
  -- applies them.
  pub execute-bounded :
      (ordered : List Candidate) (w : World)
      → w.log ≡ []
      → let log = (execute_ordered env model canonical ordered w).1.log in
        All (IsConfined model.provider) log
        × (gens log ≤ length ordered + recs log)
        × (recs log ≤ length ordered)
        × (env.has_recorder ≡ true → failures log ≡ applied log)
  unfolding execute_ordered generate
  execute-bounded ordered w start = bounds (
      subst
        (λ l.
          Adds model.provider env.has_recorder (length ordered) (length ordered) l
            (execute_ordered env model canonical ordered w).1.log)
        start
        (failover-Adds env model (generate env model canonical) (succeed env model) (λ a c v. refl)
          succeed-Adds ordered none w))
    where
      bounds :
          {log : List Action}
          → Adds model.provider env.has_recorder (length ordered) (length ordered) [] log
          → All (IsConfined model.provider) log
            × (gens log ≤ length ordered + recs log)
            × (recs log ≤ length ordered)
            × (env.has_recorder ≡ true → failures log ≡ applied log)
      bounds v = (
        v.confined tt,
        omega (arith, v.called),
        omega (arith, v.recovered_within),
        λ r. omega (arith, v.recorded r),
      )

  -- When `Execute` over its ordered candidates returns a result, the last things it did are the call of
  -- the provider for the account that the result names, the success for that account and model, and, if
  -- there is a recorder, the record of the usage of the events; and whenever the cooldown of the account
  -- and the model is looked up in the tables as they are then, there is one row and it has no end.
  pub execute-done :
      (ordered : List Candidate) (w : World) (r : Result)
      → (execute_ordered env model canonical ordered w).0 ≡ done r
      → let after = (execute_ordered env model canonical ordered w).1 in
        (r.model ≡ model.upstream_name)
        × (rest : List Action) × (after.log
            ≡ reported env.has_recorder r.account_id
                (completed_usage r.events)
                (succeeds r.account_id r.model ∷ generates r.account_id model.provider ∷ rest))
        × ((later : ℕ)
            → (c : Cooldown) × ((Cooldowns.get r.account_id r.model later after.db.states).0
                ≡ some c)
              × (c.until ≡ none))
  unfolding execute_ordered
  execute-done ordered w r h =
      elim (failover-Ends env model (generate env model canonical) (succeed env model) ordered none
        w r h) [ from a c events v own called e ↦ succeed-done a c events v r _ own e ]
