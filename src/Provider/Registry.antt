-- ===== src/Provider/Registry.antt =====
-- internal/provider/registry.go: the registry of runtime capabilities. `is_trimmed` says that
-- strings.TrimSpace leaves a string as it is; an interface that is nil is `none`.
pub mod Laws
mod Tests
use byos.Prelude.{
  String, Bool, true, false, not, Option, none, some, List, [], ◌∷◌, str_eq, ◌&&◌, ◌||◌,
  if◌then◌else◌,
}
use byos.Provider.{Kind, is_valid_kind}

pub data Error : Type 0 where
  invalid_capability_key invalid_capabilities duplicate_capability_key : Error

pub data Result {ℓ} (A : Type ℓ) : Type ℓ where
  ok : A → Result A
  err : Error → Result A

abbrev pub is_set {ℓ} : {A : Type ℓ} → Option A → Bool
is_set none = false
is_set (some a) = true

-- The implementations of the interfaces are of one type.
pub record Capabilities (Impl : Type 0) : Type 0 where
  pub policy : Option Impl
  pub generation : Option Impl
  pub credentials : Option Impl
  pub credential_refresher : Option Impl
  pub lifecycle : Option Impl
  pub model_discoverer : Option Impl
  pub usage_fetcher : Option Impl

pub record CapabilityRegistration (Impl : Type 0) : Type 0 where
  pub provider : Kind
  pub policy_key : String
  pub capabilities : Capabilities Impl

abbrev pub Registry : Type 0 → Type 0
Registry Impl = Kind → String → Option (Capabilities Impl)

module _ {Impl : Type 0} where
  abbrev pub has_some : Capabilities Impl → Bool
  has_some c = is_set c.policy || (is_set c.generation || is_set c.credentials)

  abbrev pub has_all : Capabilities Impl → Bool
  has_all c = is_set c.policy && (is_set c.generation && is_set c.credentials)

  -- `validateCapabilities` gives no error.
  unfoldable pub is_valid : Capabilities Impl → Bool
  is_valid c =
      not (has_some c && not (has_all c))
      && not (
          not (has_some c)
          && (not (is_set c.credential_refresher)
              && (not (is_set c.lifecycle)
                  && (not (is_set c.model_discoverer) && not (is_set c.usage_fetcher)))))

  abbrev pub add : CapabilityRegistration Impl → Registry Impl → Registry Impl
  add r m kind key =
      if str_eq kind r.provider && str_eq key r.policy_key then some r.capabilities else m kind key

  module _ (is_trimmed : String → Bool) where
    unfoldable pub register :
        List (CapabilityRegistration Impl) → Registry Impl → Result (Registry Impl)
    unfolding is_valid
    register [] m = ok m
    register (r ∷ registrations) m =
        let rest = register registrations (add r m) in
        if not (is_valid_kind r.provider)
        then err invalid_capability_key
        else if str_eq r.policy_key "" || not (is_trimmed r.policy_key)
        then err invalid_capability_key
        else if not (is_valid r.capabilities)
        then err invalid_capabilities
        else if is_set (m r.provider r.policy_key)
        then err duplicate_capability_key
        else rest

    unfoldable pub new_capability_registry :
        List (CapabilityRegistration Impl) → Result (Registry Impl)
    unfolding register
    new_capability_registry registrations = register registrations (λ _ _. none)

  look_up : Option (Registry Impl) → Kind → String → Option (Capabilities Impl)
  look_up none kind key = none
  look_up (some m) kind key = m kind key

  -- The method `Capabilities`; `none` is the nil registry, and the answer false.
  unfoldable pub capabilities : Option (Registry Impl) → Kind → String → Option (Capabilities Impl)
  unfolding look_up
  capabilities registry kind key = look_up registry kind key

  lifecycle_of : Option (Capabilities Impl) → Option Impl
  lifecycle_of none = none
  lifecycle_of (some c) = c.lifecycle

  unfoldable pub lifecycle : Option (Registry Impl) → Kind → String → Option Impl
  unfolding capabilities lifecycle_of
  lifecycle registry kind key = lifecycle_of (capabilities registry kind key)

  refresher_of : Option (Capabilities Impl) → Option Impl
  refresher_of none = none
  refresher_of (some c) = c.credential_refresher

  unfoldable pub credential_refresher : Option (Registry Impl) → Kind → String → Option Impl
  unfolding capabilities refresher_of
  credential_refresher registry kind key = refresher_of (capabilities registry kind key)
