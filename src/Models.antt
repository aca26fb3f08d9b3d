-- ===== src/Models.antt =====
-- internal/models/catalog.go: the catalog of the models that accounts offer, and the aliases of the static
-- catalog. A map is its entries; `by_model` is the order of the database, and `by_id` the sort of the public
-- models.
pub mod Laws
pub mod Overlay
mod Tests
use byos.Prelude.{
  ℕ, String, Bool, true, false, not, Option, none, some, List, [], ◌∷◌, ◌++◌, str_eq, ◌&&◌, ◌||◌,
  if◌then◌else◌, update,
}
use byos.Provider.{ResolvedModel}
use byos.Store.ModelCapabilities
use byos.Store.ModelCapabilities.{ModelCapability, Row}

pub record Model : Type 0 where
  pub id : String
  pub display_name : String
  pub context_window : ℕ
  pub max_output_tokens : ℕ
  pub reasoning_efforts : List String
  pub supports_backend_search : Option Bool

pub record Capability : Type 0 where
  pub model : Model
  pub supported : Bool
  pub discovered_at : ℕ
  pub stale : Bool

pub record PublicModel : Type 0 where
  pub id : String
  pub object : String
  pub owned_by : String
  pub alias_of : String

-- provider.DiscoveredModel.
pub record DiscoveredModel : Type 0 where
  pub upstream_name : String
  pub display_name : String
  pub supports_backend_search : Option Bool
  pub context_window : ℕ
  pub max_output_tokens : ℕ
  pub reasoning_efforts : List String

pub record Catalog : Type 0 where
  pub allowlist : List String
  pub aliases : List (String × String)

-- A read of a map: no key stands twice among its entries.
unfoldable pub get_alias : String → List (String × String) → Option String
get_alias k [] = none
get_alias k (e ∷ es) = if str_eq e.0 k then some e.1 else get_alias k es

unfoldable pub is_allowed : List String → String → Bool
is_allowed [] model = false
is_allowed (x ∷ xs) model = str_eq x model || is_allowed xs model

abbrev pub target_of : String → Option String → String
target_of model none = model
target_of model (some target) = target

unfoldable pub resolve : Catalog → String → String × Bool
unfolding get_alias is_allowed
resolve c model =
    let target = target_of model (get_alias model c.aliases) in
    (target, is_allowed c.allowlist target)

-- What a discovery returned, where a failed one is `none`.
abbrev pub model_of : DiscoveredModel → Model
model_of d = record {
  id = d.upstream_name;
  display_name = d.display_name;
  context_window = d.context_window;
  max_output_tokens = d.max_output_tokens;
  reasoning_efforts = d.reasoning_efforts;
  supports_backend_search = d.supports_backend_search;
}

abbrev pub models_of : List DiscoveredModel → List Model
models_of [] = []
models_of (d ∷ ds) = model_of d ∷ models_of ds

abbrev pub capability_of : ModelCapability → Capability
capability_of v = record {
  model = record {
    id = v.model;
    display_name = v.display_name;
    context_window = v.context_window;
    max_output_tokens = v.max_output_tokens;
    reasoning_efforts = v.reasoning_efforts;
    supports_backend_search = v.supports_backend_search;
  };
  supported = v.supported;
  discovered_at = v.discovered_at;
  stale = v.stale;
}

-- The row without a model says that there is none.
unfoldable pub capabilities_of : List ModelCapability → List Capability
capabilities_of [] = []
capabilities_of (v ∷ values) =
    let rest = capabilities_of values in if str_eq v.model "" then rest else capability_of v ∷ rest

abbrev pub value_of : String → ℕ → Model → ModelCapability
value_of account now m = record {
  account_id = account;
  model = m.id;
  display_name = m.display_name;
  supported = true;
  supports_backend_search = m.supports_backend_search;
  context_window = m.context_window;
  max_output_tokens = m.max_output_tokens;
  reasoning_efforts = m.reasoning_efforts;
  discovered_at = now;
  stale = false;
}

abbrev pub nothing_found : String → ℕ → ModelCapability
nothing_found account now = record {
  account_id = account;
  model = "";
  display_name = "";
  supported = false;
  supports_backend_search = none;
  context_window = 0;
  max_output_tokens = 0;
  reasoning_efforts = [];
  discovered_at = now;
  stale = false;
}

abbrev pub values_of : String → ℕ → List Model → List ModelCapability
values_of account now [] = []
values_of account now (m ∷ models) = value_of account now m ∷ values_of account now models

abbrev pub snapshot : String → ℕ → List Model → List ModelCapability
snapshot account now [] = nothing_found account now ∷ []
snapshot account now (m ∷ models) = values_of account now (m ∷ models)

-- The error of a discovery, alone or joined with one of the catalog.
pub data Error : Type 0 where
  discovery_failed stale_state : Error
  store_failed : ModelCapabilities.Error → Error

pub data Refresh : Type 0 where
  refreshed : List Model → Refresh
  -- The models of the snapshot, beside the error of the discovery.
  outdated : List Model → Refresh
  fails : Error → Refresh

-- The loop over the snapshot of an account whose discovery failed.
unfoldable pub retained : List Capability → Option (List Model)
retained [] = some []
retained (c ∷ cs) = let rest = retained cs in if not c.stale then none else with_rest c rest
  where
    with_rest : Capability → Option (List Model) → Option (List Model)
    with_rest c none = none
    with_rest c (some models) = some (if c.supported then c.model ∷ models else models)

module _ (is_account : String → Bool) (by_model : List Row → List Row) where
  unfoldable pub capabilities : String → List Row → List Capability
  unfolding ModelCapabilities.list capabilities_of
  capabilities account rows = capabilities_of (ModelCapabilities.list by_model account rows)

  unfoldable pub after_failure : Option (List Model) → Refresh
  after_failure none = fails stale_state
  after_failure (some models) = outdated models

  unfoldable pub after_replace :
      List Model → Option ModelCapabilities.Error × List Row → Refresh × List Row
  after_replace models (none, rows) = (refreshed models, rows)
  after_replace models (some e, rows) = (fails (store_failed e), rows)

  -- `failed` says that the discovery returned an error.
  unfoldable pub refresh_from_models :
      Bool → String → List Model → ℕ → List Row → Refresh × List Row
  unfolding capabilities retained after_failure after_replace ModelCapabilities.replace
      ModelCapabilities.mark_stale
  refresh_from_models true account models now rows =
      let rows' = ModelCapabilities.mark_stale account rows in
      (after_failure (retained (capabilities account rows')), rows')
  refresh_from_models false account models now rows =
      after_replace models
        (ModelCapabilities.replace is_account account (snapshot account now models) rows)

  unfoldable pub apply_discovery :
      Bool → String → List DiscoveredModel → ℕ → List Row → Refresh × List Row
  unfolding refresh_from_models
  apply_discovery failed account discovered =
      refresh_from_models failed account (models_of discovered)

  abbrev pub refuses_search : Option Bool → Bool
  refuses_search none = false
  refuses_search (some supports) = not supports

  -- The loop over a snapshot that is not empty.
  unfoldable pub supports_in : ResolvedModel → List ModelCapability → Bool
  supports_in resolved [] = false
  supports_in resolved (v ∷ values) =
      let rest = supports_in resolved values in
      if not (str_eq v.model resolved.upstream_name) || not v.supported
      then rest
      else if str_eq resolved.provider "xai" && refuses_search v.supports_backend_search
      then false
      else true

  unfoldable pub supports : ResolvedModel → List ModelCapability → Bool
  unfolding supports_in
  supports resolved [] = true
  supports resolved (v ∷ values) = supports_in resolved (v ∷ values)

  unfoldable pub account_supports : String → ResolvedModel → List Row → Bool
  unfolding supports ModelCapabilities.list
  account_supports account resolved rows =
      supports resolved (ModelCapabilities.list by_model account rows)

  -- The map of supported models, after the rows of one account.
  unfoldable pub support : List ModelCapability → (String → Bool) → String → Bool
  support [] m = m
  support (v ∷ values) m = support values (
      if v.supported && not (refuses_search v.supports_backend_search)
      then update m v.model true
      else m)

  abbrev pub is_nonempty : List ModelCapability → Bool
  is_nonempty [] = false
  is_nonempty (v ∷ values) = true

  -- The loop over the enabled accounts: whether there is a snapshot, and what is supported.
  unfoldable pub survey : List Row → List String → Bool × (String → Bool) → Bool × (String → Bool)
  unfolding support ModelCapabilities.list
  survey rows [] s = s
  survey rows (account ∷ accounts) s =
      let values = ModelCapabilities.list by_model account rows in
      survey rows accounts (s.0 || is_nonempty values, support values s.1)

  abbrev pub is_public : Bool × (String → Bool) → String → Bool
  is_public s model = not s.0 || s.1 model

  abbrev pub public_model : String → PublicModel
  public_model model = record { id = model; object = "model"; owned_by = "xai"; alias_of = "" }

  abbrev pub public_alias : String × String → PublicModel
  public_alias e = record { id = e.0; object = "model"; owned_by = "byos"; alias_of = e.1 }

  unfoldable pub public_models : Bool × (String → Bool) → List String → List PublicModel
  public_models s [] = []
  public_models s (x ∷ xs) =
      let rest = public_models s xs in if is_public s x then public_model x ∷ rest else rest

  unfoldable pub public_aliases :
      Bool × (String → Bool) → List String → List (String × String) → List PublicModel
  unfolding is_allowed
  public_aliases s allowed [] = []
  public_aliases s allowed (e ∷ es) =
      let rest = public_aliases s allowed es in
      if is_allowed allowed e.1 && is_public s e.1 then public_alias e ∷ rest else rest

  unfoldable pub public :
      (List PublicModel → List PublicModel) → Catalog → List String → List Row → List PublicModel
  unfolding survey public_models public_aliases
  public by_id c accounts rows =
      let s = survey rows accounts (false, λ _. false) in
      by_id (public_models s c.allowlist ++ public_aliases s c.allowlist c.aliases)
