-- ===== src/Routing/Execute.antt =====
-- internal/routing/execute.go and stream.go: the failover loop over the candidates, which `Execute` and
-- `Stream` share, and `Execute`.
pub mod Trace
pub mod Success
mod Tests
use byos.Prelude.{
  String, Bool, true, false, Option, none, some, List, [], ◌∷◌, str_eq, if◌then◌else◌,
}
use byos.Provider.{ResolvedModel, ErrorClassification}
use byos.Store.Accounts.{Account}
use byos.Routing.Failure.{
  GoError, Failable, ok, fail, ExecuteError, no_available_accounts, execution, failed, Outcome,
  done, error, classify_execution_error,
}
use byos.Routing.LocalUsage.{Event, one_failure, completed_usage}
use byos.Routing.Scheduler.{Candidate}
use byos.Routing.Attempt.{
  World, Env, Step, ◌>>=◌, Action, generates, ask, get_account, record_usage, cooldown_success,
  apply_failure, ask_credential, recover_authentication, Recovery, retries, gives_up,
}

pub record Result : Type 0 where
  pub model : String
  pub account_id : String
  pub events : List Event

-- Whether the loop returns or goes on to the next candidate, with the classification of the failure.
pub data Next (A : Type 0) : Type 0 where
  returns : Outcome A → Next A
  moves_on : ErrorClassification → Next A

module _ {Credentials Credential Canonical : Type 0}
    (env : Env Credentials Credential Canonical) where
  -- The loop over the candidates, which `Execute` and `Stream` share: `call` is the provider's call
  -- with a credential, `finish` what follows a call that succeeds.
  module _ {Reply A : Type 0} (model : ResolvedModel)
      (call : Account Credentials → Credential → Step (Failable Reply))
      (finish : Account Credentials → Reply → Step (Outcome A)) where
    settle : Failable ErrorClassification → Next A
    settle (fail e) = returns (error (failed e))
    settle (ok c) = if c.retry_next then moves_on c else returns (error (execution c))

    unfoldable pub fail_account : Account Credentials → ErrorClassification → Step (Next A)
    unfolding settle
    fail_account a c w =
        let (_, w1) = record_usage env a.id one_failure w in
        let (r, w2) = apply_failure env a.id model.upstream_name c w1 in (settle r, w2)

    finished : Account Credentials → Reply → Step (Next A)
    finished a reply w = let (o, w') = finish a reply w in (returns o, w')

    -- The second call, with the credential of the recovery.
    retry_same : Account Credentials → Failable Reply → Step (Next A)
    unfolding finished
    retry_same a (ok reply) = finished a reply
    retry_same a (fail e) = fail_account a (classify_execution_error e)

    recovered : Account Credentials → Recovery Credential → Step (Next A)
    unfolding retry_same
    recovered a (gives_up c) = fail_account a c
    recovered a (retries credential) = call a credential >>= retry_same a

    first_call : Account Credentials → Failable Reply → Step (Next A)
    unfolding finished recovered
    first_call a (ok reply) = finished a reply
    first_call a (fail e) =
        let c = classify_execution_error e in
        if c.refresh_same
        then (recover_authentication env a.id e c >>= recovered a)
        else fail_account a c

    with_credential : Account Credentials → Failable Credential → Step (Next A)
    unfolding first_call
    with_credential a (fail e) = fail_account a (classify_execution_error e)
    with_credential a (ok credential) = call a credential >>= first_call a

    unfoldable pub attempt : Account Credentials → Step (Next A)
    unfolding with_credential ask_credential
    attempt a = ask_credential env a.id >>= with_credential a

    exhausted : Option ErrorClassification → Outcome A
    exhausted none = error no_available_accounts
    exhausted (some c) = error (execution c)

    follow : (ErrorClassification → Step (Outcome A)) → Next A → Step (Outcome A)
    follow next (returns o) w = (o, w)
    follow next (moves_on c) w = next c w

    visit :
        Step (Outcome A)
        → (ErrorClassification → Step (Outcome A))
        → Failable (Account Credentials)
        → Step (Outcome A)
    unfolding follow
    visit skip next (fail e) w = (error (failed e), w)
    visit skip next (ok a) w =
        if str_eq a.provider model.provider then (attempt a >>= follow next) w else skip w

    unfoldable pub failover : List Candidate → Option ErrorClassification → Step (Outcome A)
    unfolding visit exhausted
    failover [] last w = (exhausted last, w)
    failover (candidate ∷ rest) last w =
        (get_account env candidate.id >>= visit (failover rest last) (λ c. failover rest (some c)))
          w

  -- The two ends of `Execute`.
  generate :
      ResolvedModel → Canonical → Account Credentials → Credential → Step (Failable (List Event))
  generate model canonical a credential =
      ask env (generates a.id a.provider) (env.generate model canonical credential)

  settled :
      ResolvedModel → Account Credentials → List Event → Option GoError → Step (Outcome Result)
  settled model a events (some e) w = (error (failed e), w)
  settled model a events none w =
      let (_, w') = record_usage env a.id (completed_usage events) w in
      (done (record { model = model.upstream_name; account_id = a.id; events = events }), w')

  succeed : ResolvedModel → Account Credentials → List Event → Step (Outcome Result)
  unfolding settled
  succeed model a events = cooldown_success env a.id model.upstream_name >>= settled model a events

  -- `Execute` from its ordered candidates on.
  unfoldable pub execute_ordered :
      ResolvedModel → Canonical → List Candidate → Step (Outcome Result)
  unfolding generate succeed
  execute_ordered model canonical ordered =
      failover model (generate model canonical) (succeed model) ordered none
