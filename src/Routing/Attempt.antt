-- ===== src/Routing/Attempt.antt =====
-- internal/routing/execute.go: what the executor asks and writes. The providers are the parameter
-- `env`: a call sees everything that happened before and may leave the tables changed, as requests that
-- run beside this one do. A log of the actions is kept.
pub mod Log
use byos.Prelude.{
  ℕ, String, Bool, true, false, Option, none, some, List, [], ◌∷◌, ltb, if◌then◌else◌, ◌-◌,
}
use byos.Provider.{Kind, ResolvedModel, UpstreamError, ErrorClassification}
use byos.Store.Accounts
use byos.Store.Accounts.{Account}
use byos.Store.Cooldowns
use byos.Routing.Cooldown
use byos.Routing.Cooldown.{Db, scope_of}
use byos.Routing.Failure.{GoError, Failable, ok, fail, Outcome, typed_error_classification}
use byos.Routing.LocalUsage.{LocalUsageDelta, Event}

-- What the executor does, the newest action first in a log.
pub data Action : Type 0 where
  reads : String → Action
  asks_credential : String → Action
  generates : String → Kind → Action
  recovers : String → Action
  succeeds : String → String → Action
  applies : String → String → ErrorClassification → Action
  records : String → LocalUsageDelta → Action

pub record World : Type 0 where
  pub db : Db
  pub log : List Action

abbrev pub Step : Type 0 → Type 0
Step A = World → A × World

infixl 5 ◌>>=◌
abbrev pub ◌>>=◌ : {A B : Type 0} → Step A → (A → Step B) → Step B
◌>>=◌ m f w = let (a, w') = m w in f a w'

pub record Env (Credentials Credential Canonical : Type 0) : Type 0 where
  pub decode : String → Option Credentials
  pub clock : World → ℕ
  pub credential : String → World → Failable Credential × Db
  pub generate : ResolvedModel → Canonical → Credential → World → Failable (List Event) × Db
  pub authentication_failed : String → UpstreamError → World → Option GoError × Db
  pub has_recorder : Bool
  pub store_error : Accounts.Error → GoError

pub data Recovery (Credential : Type 0) : Type 0 where
  retries : Credential → Recovery Credential
  gives_up : ErrorClassification → Recovery Credential

module _ {Credentials Credential Canonical : Type 0}
    (env : Env Credentials Credential Canonical) where
  -- A call of a provider: the action, and the answer with the tables as the call leaves them.
  abbrev pub ask : {A : Type 0} → Action → (World → A × Db) → Step A
  ask a call w = let (answer, db) = call w in (answer, record { db = db; log = a ∷ w.log })

  lifted : Accounts.Result (Account Credentials) → Failable (Account Credentials)
  lifted (Accounts.ok a) = ok a
  lifted (Accounts.err e) = fail (env.store_error e)

  unfoldable pub get_account : String → Step (Failable (Account Credentials))
  unfolding lifted
  get_account id = ask (reads id) (λ w. (lifted (Accounts.get env.decode id w.db.accounts), w.db))

  -- `record`; without a recorder it does nothing.
  unfoldable pub record_usage : String → LocalUsageDelta → Step (Unit {0})
  record_usage id delta w =
      if env.has_recorder then ask (records id delta) (λ v. (tt, v.db)) w else (tt, w)

  lift_error : Option Accounts.Error → Option GoError
  lift_error none = none
  lift_error (some e) = some (env.store_error e)

  unfoldable pub cooldown_success : String → String → Step (Option GoError)
  unfolding lift_error
  cooldown_success id model =
      ask (succeeds id model)
        (λ w. let (e, db) = Cooldown.success id model w.db in (lift_error e, db))

  unfoldable pub cooldown_apply : String → String → ErrorClassification → Step (Option GoError)
  unfolding lift_error
  cooldown_apply id model c = ask (applies id model c) (λ w.
      let (e, db) = Cooldown.apply env.decode id model c (env.clock w) w.db in (lift_error e, db))

  -- What `applyFailure` makes of the cooldown that the store reports.
  refine : ErrorClassification → ℕ → Option ℕ → ErrorClassification
  refine c now none = c
  refine c now (some until) =
      if ltb now until then record c { retry_after = until; cooldown = until - now } else c

  refine_state : ErrorClassification → ℕ → Option Cooldowns.Cooldown → ErrorClassification
  unfolding refine
  refine_state c now none = c
  refine_state c now (some state) = refine c now state.until

  look_up :
      String → String → ErrorClassification → Option GoError → Step (Failable ErrorClassification)
  unfolding refine_state
  look_up id model c (some e) w = (fail e, w)
  look_up id model c none w =
      let (state, states) = Cooldowns.get id (scope_of model c) (env.clock w) w.db.states in
      (ok (refine_state c (env.clock w) state), record w { db = record w.db { states = states } })

  unfoldable pub apply_failure :
      String → String → ErrorClassification → Step (Failable ErrorClassification)
  unfolding cooldown_apply look_up
  apply_failure id model c = cooldown_apply id model c >>= look_up id model c

  classified_or : ErrorClassification → Option ErrorClassification → ErrorClassification
  classified_or original none = original
  classified_or original (some c) = c

  fresh_credential : ErrorClassification → Failable Credential → Recovery Credential
  unfolding typed_error_classification classified_or
  fresh_credential original (ok credential) = retries credential
  fresh_credential original (fail e) =
      gives_up (classified_or original (typed_error_classification e))

  unfoldable pub ask_credential : String → Step (Failable Credential)
  ask_credential id = ask (asks_credential id) (env.credential id)

  after_recovery : String → ErrorClassification → Option GoError → Step (Recovery Credential)
  unfolding fresh_credential ask_credential
  after_recovery id original (some e) w =
      (gives_up (classified_or original (typed_error_classification e)), w)
  after_recovery id original none w =
      let (answer, w') = ask_credential id w in (fresh_credential original answer, w')

  recover_upstream :
      String → ErrorClassification → Option UpstreamError → Step (Recovery Credential)
  unfolding after_recovery
  recover_upstream id original none w = (gives_up original, w)
  recover_upstream id original (some upstream) w =
      (ask (recovers id) (env.authentication_failed id upstream) >>= after_recovery id original) w

  -- The classification that replaces the original one, or the credential of the one retry, for which
  -- the original classification stays.
  unfoldable pub recover_authentication :
      String → GoError → ErrorClassification → Step (Recovery Credential)
  unfolding recover_upstream
  recover_authentication id cause original = recover_upstream id original cause.as_upstream
