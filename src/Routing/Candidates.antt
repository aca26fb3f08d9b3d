-- ===== src/Routing/Candidates.antt =====
-- internal/routing/execute.go: `candidates` builds what the scheduler chooses from, and
-- `allCoolingClassification` says when an account will be free again. The list of accounts, their
-- capability snapshots and the usability of their credentials are read through interfaces: they are
-- parameters. The cooldowns are read from the table.
pub mod Serving
pub mod Cooling
mod Tests
use byos.Prelude.{
  ℕ, String, Bool, true, false, not, Option, none, some, List, [], ◌∷◌, length, update, ltb, ◌==◌,
  ◌-◌, str_eq, if◌then◌else◌, ◌&&◌, ◌||◌,
}
use byos.Provider.{Kind, ResolvedModel, ErrorClassification, no_classification}
use byos.Store.Accounts.{Account}
use byos.Store.Cooldowns
use byos.Store.Cooldowns.Rows.{State}
use byos.Routing.Failure.{
  GoError, Failable, ok, fail, ExecuteError, no_available_accounts, execution, failed, Outcome,
  done, error,
}
use byos.Routing.Scheduler.{Candidate, Scheduler, Split, eligible_of, order}

-- The columns of store.ModelCapability that routing reads.
pub record ModelCapability : Type 0 where
  pub model : String
  pub supported : Bool
  pub supports_backend_search : Option Bool

-- `value != nil && !*value`.
abbrev pub refuses_search : Option Bool → Bool
refuses_search none = false
refuses_search (some supports) = not supports

-- The map of the models that a snapshot supports.
unfoldable pub supported_models : Kind → List ModelCapability → (String → Bool) → String → Bool
supported_models kind [] m = m
supported_models kind (c ∷ rest) m = supported_models kind rest (
    if not c.supported
    then m
    else if str_eq kind "xai" && refuses_search c.supports_backend_search
    then m
    else update m c.model true)

is_empty : List ModelCapability → Bool
is_empty [] = true
is_empty (c ∷ rest) = false

-- One round of the loop over the scopes.
unfoldable pub read_scope :
    String → ℕ → String → (String → ℕ) × List State → (String → ℕ) × List State
read_scope id now scope (m, states) =
    let (found, states') = Cooldowns.get id scope now states in (assign found, states')
  where
    assign : Option Cooldowns.Cooldown → String → ℕ
    assign none = m
    assign (some state) = elim state.until [ none ↦ m | some until ↦ update m scope until ]

pub record Sources (Credentials : Type 0) : Type 0 where
  pub list_accounts : Failable (List (Account Credentials))
  pub list_capabilities : String → Failable (List ModelCapability)
  -- `none` where the credential manager does not project usability.
  pub credential_usable : Option (String → Failable Bool)

module _ {Credentials : Type 0} (sources : Sources Credentials) (resolved : ResolvedModel)
    (now : ℕ) where
  usable : Option (String → Failable Bool) → Account Credentials → Failable Bool
  usable none a = ok (str_eq a.status "ready")
  usable (some check) a = if str_eq a.status "ready" then check a.id else ok false

  with_capabilities :
      Account Credentials
      → Bool
      → List State
      → Failable (List ModelCapability)
      → Failable Candidate × List State
  unfolding is_empty
  with_capabilities a valid states (fail e) = (fail e, states)
  with_capabilities a valid states (ok capabilities) =
      let (m, states') =
        read_scope a.id now "*" (read_scope a.id now resolved.upstream_name (λ _. 0, states)) in
      (
        ok (record {
          id = a.id;
          provider = a.provider;
          enabled = a.enabled;
          valid = valid;
          capabilities = supported_models resolved.provider capabilities (λ _. false);
          capabilities_known = not (is_empty capabilities);
          cooldown_until = m;
        }),
        states',
      )

  with_validity : Account Credentials → List State → Failable Bool → Failable Candidate × List State
  unfolding with_capabilities
  with_validity a states (fail e) = (fail e, states)
  with_validity a states (ok valid) =
      with_capabilities a valid states (sources.list_capabilities a.id)

  unfoldable pub candidate_of : Account Credentials → List State → Failable Candidate × List State
  unfolding usable with_validity
  candidate_of a states = with_validity a states (usable sources.credential_usable a)

  prepend : Candidate → Failable (List Candidate) → Failable (List Candidate)
  prepend c (ok rest) = ok (c ∷ rest)
  prepend c (fail e) = fail e

  collect :
      Failable Candidate
      → List State
      → (List State → Failable (List Candidate) × List State)
      → Failable (List Candidate) × List State
  unfolding prepend
  collect (fail e) states rest = (fail e, states)
  collect (ok c) states rest = let (cs, states') = rest states in (prepend c cs, states')

  unfoldable pub build :
      List (Account Credentials) → List State → Failable (List Candidate) × List State
  unfolding collect
  build [] states = (ok [], states)
  build (a ∷ accounts) states =
      if str_eq a.provider resolved.provider
      then (let (c, states') = candidate_of a states in collect c states' (build accounts))
      else build accounts states

-- The first loop of `allCoolingClassification`: the guards of the scheduler without the cooldowns.
unfoldable pub pool : Kind → String → List Candidate → Split
pool kind model [] = record { known = []; unknown = [] }
pool kind model (a ∷ rest) =
    let s = pool kind model rest in
    if not (str_eq a.provider kind) || (not a.enabled || not a.valid)
    then s
    else if a.capabilities_known
    then (if a.capabilities model then record s { known = a ∷ s.known } else s)
    else record s { unknown = a ∷ s.unknown }

abbrev pub available_at : String → Candidate → ℕ
available_at model a =
    if ltb (a.cooldown_until model) (a.cooldown_until "*")
    then a.cooldown_until "*"
    else a.cooldown_until model

-- The second loop; `none` where some candidate is not cooling.
unfoldable pub earliest_of : String → ℕ → ℕ → List Candidate → Option ℕ
earliest_of model now earliest [] = some earliest
earliest_of model now earliest (a ∷ rest) =
    let go =
      earliest_of model now
        (if earliest == 0 || ltb (available_at model a) earliest
          then available_at model a
          else earliest)
        rest in
    if not (ltb now (available_at model a)) then none else go

cooling_until : ℕ → Option ℕ → Option ErrorClassification
cooling_until now none = none
cooling_until now (some earliest) = some (record no_classification {
  class = "rate_limit";
  explicit_retry_after = true;
  cooldown_scope = "model";
  cooldown = earliest - now;
  retry_after = earliest;
  public_status = 429;
  public_code = "rate_limit_exceeded";
  public_message = "all available accounts are rate limited";
})

cooling_eligible : String → ℕ → List Candidate → Option ErrorClassification
unfolding cooling_until earliest_of
cooling_eligible model now [] = none
cooling_eligible model now (a ∷ rest) = cooling_until now (earliest_of model now 0 (a ∷ rest))

unfoldable pub all_cooling_classification :
    List Candidate → Kind → String → ℕ → Option ErrorClassification
unfolding cooling_eligible eligible_of pool
all_cooling_classification candidates kind model now =
    cooling_eligible model now (eligible_of (pool kind model candidates))

module _ {Credentials : Type 0} (sources : Sources Credentials) (resolved : ResolvedModel)
    (preferred : String) (now : ℕ) where
  ordered_or : List Candidate → Option (List Candidate) → Outcome (List Candidate)
  unfolding all_cooling_classification
  ordered_or cs (some ordered) = done ordered
  ordered_or cs none =
      elim (all_cooling_classification cs resolved.provider resolved.upstream_name now) [
        | some c ↦ error (execution c)
        | none ↦ error no_available_accounts
      ]

  order_built : Scheduler → Failable (List Candidate) → Outcome (List Candidate) × Scheduler
  unfolding ordered_or order
  order_built s (fail e) = (error (failed e), s)
  order_built s (ok cs) =
      let (ordered, s') = order resolved.provider resolved.upstream_name cs preferred now s in
      (ordered_or cs ordered, s')

  build_listed :
      Failable (List (Account Credentials))
      → List State
      → Scheduler
      → Outcome (List Candidate) × (List State × Scheduler)
  unfolding order_built build
  build_listed (fail e) states s = (error (failed e), (states, s))
  build_listed (ok accounts) states s =
      let (cs, states') = build sources resolved now accounts states in
      let (o, s') = order_built s cs in (o, (states', s'))

  -- `candidates`: it reads the clock once. A row of cooldowns that has expired is promoted by its lookup.
  unfoldable pub candidates :
      List State → Scheduler → Outcome (List Candidate) × (List State × Scheduler)
  unfolding build_listed
  candidates states s = build_listed sources.list_accounts states s
