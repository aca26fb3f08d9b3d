-- ===== src/Routing/Attempt/Log.antt =====
-- What each helper of the executor (internal/routing/execute.go) adds to the log.
use byos.Prelude.{◌≡◌, refl, String, Option, none, some, List, ◌∷◌, arith, if◌then◌else◌}
use byos.Provider.{ErrorClassification, UpstreamError}
use byos.Store.Accounts.{Error}
use byos.Routing.Cooldown.{success}
use byos.Routing.Failure.{GoError}
use byos.Routing.LocalUsage.{LocalUsageDelta}
use byos.Routing.Attempt.{
  World, Env, Action, reads, asks_credential, recovers, succeeds, applies, records, get_account,
  record_usage, lift_error, cooldown_success, cooldown_apply, apply_failure, look_up,
  ask_credential, recover_authentication, recover_upstream, after_recovery, Recovery, gives_up,
}

module _ {Credentials Credential Canonical : Type 0}
    (env : Env Credentials Credential Canonical) where
  pub get_account-log : (id : String) (w : World) → (get_account env id w).1.log ≡ reads id ∷ w.log
  unfolding get_account
  get_account-log id w = refl

  pub ask_credential-log :
      (id : String) (w : World) → (ask_credential env id w).1.log ≡ asks_credential id ∷ w.log
  unfolding ask_credential
  ask_credential-log id w = refl

  pub record_usage-log :
      (id : String) (delta : LocalUsageDelta) (w : World)
      → (record_usage env id delta w).1.log
        ≡ (if env.has_recorder then records id delta ∷ w.log else w.log)
  unfolding record_usage
  record_usage-log id delta w = ground arith

  pub cooldown_success-log :
      (id model : String) (w : World)
      → (cooldown_success env id model w).1.log ≡ succeeds id model ∷ w.log
  unfolding cooldown_success
  cooldown_success-log id model w = refl

  lift_error-none : (e : Option Error) → lift_error env e ≡ none → e ≡ none
  unfolding lift_error
  lift_error-none none h = refl
  lift_error-none (some e) h = absurd (cc)

  pub cooldown_success-none :
      (id model : String) (w : World)
      → (cooldown_success env id model w).0 ≡ none
      → (success id model w.db).0 ≡ none
  unfolding cooldown_success
  cooldown_success-none id model w h = lift_error-none (success id model w.db).0 h

  look_up-log :
      (id model : String) (c : ErrorClassification) (e : Option GoError) (w : World)
      → (look_up env id model c e w).1.log ≡ w.log
  unfolding look_up
  look_up-log id model c none w = refl
  look_up-log id model c (some e) w = refl

  pub apply_failure-log :
      (id model : String) (c : ErrorClassification) (w : World)
      → (apply_failure env id model c w).1.log ≡ applies id model c ∷ w.log
  unfolding apply_failure cooldown_apply
  apply_failure-log id model c w = look_up-log id model c _ _

  -- A recovery: nothing is asked of an error that is no upstream error; otherwise the recovery is
  -- asked for once, and a credential only if it succeeds. Only this last way leads to a retry.
  pub data Recovered (id : String) (before after : List Action) : Recovery Credential → Type 0 where
    not_asked : {c : ErrorClassification} → after ≡ before → Recovered id before after (gives_up c)
    refused :
        {c : ErrorClassification}
        → after ≡ recovers id ∷ before
        → Recovered id before after (gives_up c)
    asked :
        {r : Recovery Credential}
        → after ≡ asks_credential id ∷ recovers id ∷ before
        → Recovered id before after r

  fresh-Recovered :
      (id : String) (original : ErrorClassification) (e : Option GoError) (w : World)
      (before : List Action)
      → w.log ≡ recovers id ∷ before
      → Recovered id before
          (after_recovery env id original e w).1.log
          (after_recovery env id original e w).0
  unfolding after_recovery
  fresh-Recovered id original (some e) w before h = refused h
  fresh-Recovered id original none w before h = asked (rw h refl)

  upstream-Recovered :
      (id : String) (original : ErrorClassification) (u : Option UpstreamError) (w : World)
      → Recovered id w.log
          (recover_upstream env id original u w).1.log
          (recover_upstream env id original u w).0
  unfolding recover_upstream
  upstream-Recovered id original none w = not_asked refl
  upstream-Recovered id original (some u) w = fresh-Recovered id original _ _ w.log refl

  pub recover_authentication-Recovered :
      (id : String) (cause : GoError) (original : ErrorClassification) (w : World)
      → let (r, w') = recover_authentication env id cause original w in Recovered id w.log w'.log r
  unfolding recover_authentication
  recover_authentication-Recovered id cause original w =
      upstream-Recovered id original cause.as_upstream w
