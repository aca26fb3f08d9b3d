-- ===== src/Provider/Registry/Tests.antt =====
-- One provider with a generation client, and one with a lifecycle alone.
use byos.Prelude.{◌≡◌, refl, String, Bool, true, none, some, List, [], ◌∷◌, All}
use byos.Provider.Registry.{
  ok, Capabilities, CapabilityRegistration, has_some, has_all, is_valid, Registry, add, register,
  new_capability_registry, capabilities,
}
use byos.Provider.Registry.Laws.{new_capability_registry_complete}

abbrev is_trimmed : String → Bool
is_trimmed s = true

abbrev lifecycle_only : Capabilities String
lifecycle_only = record {
  policy = none;
  generation = none;
  credentials = none;
  credential_refresher = none;
  lifecycle = some "login";
  model_discoverer = none;
  usage_fetcher = none;
}

abbrev full : Capabilities String
full = record lifecycle_only {
  policy = some "policy";
  generation = some "client";
  credentials = some "manager";
}

abbrev registrations : List (CapabilityRegistration String)
registrations =
    record { provider = "xai"; policy_key = "default"; capabilities = full }
    ∷ record { provider = "devin"; policy_key = "default"; capabilities = lifecycle_only }
    ∷ []

abbrev registry : Registry String
registry =
    add (record { provider = "devin"; policy_key = "default"; capabilities = lifecycle_only })
      (add (record { provider = "xai"; policy_key = "default"; capabilities = full }) (λ _ _. none))

built : new_capability_registry is_trimmed registrations ≡ ok registry
unfolding new_capability_registry register is_valid
built = refl

new_capability_registry_complete_example :
    All
      (λ r.
        (capabilities (some registry) r.provider r.policy_key ≡ some r.capabilities)
        × (has_some r.capabilities ≡ true → has_all r.capabilities ≡ true))
      registrations
new_capability_registry_complete_example =
    new_capability_registry_complete is_trimmed registrations registry built
