-- ===== src/Provider/Catalog/Tests.antt =====
-- Two public names of one upstream model.
use byos.Prelude.{◌≡◌, refl, String, Bool, true, false, some, List, [], ◌∷◌, All, update}
use byos.Provider.{ResolvedModel}
use byos.Provider.Catalog.{
  StaticModelCatalog, ok, canonical, is_valid_model, assigned, new_static_model_catalog, register,
  resolve,
}
use byos.Provider.Catalog.Laws.{resolve_complete, upstream-unambiguous}

abbrev is_trimmed : String → Bool
is_trimmed s = true

abbrev sorted : List ResolvedModel → List ResolvedModel
sorted l = l

abbrev grok : String → ResolvedModel
grok name = record {
  public_name = name;
  upstream_name = "grok-4.5";
  provider = "xai";
  owned_by = "xai";
  policy_key = "default";
}

abbrev entries : List ResolvedModel
entries = grok "grok" ∷ grok "grok-latest" ∷ []

abbrev catalog : StaticModelCatalog
catalog = record {
  by_public =
      assigned is_trimmed sorted
        (assigned is_trimmed sorted (λ _. byos.Prelude.none) "grok" (grok "grok")) "grok-latest"
        (grok "grok-latest");
  models = entries;
}

built : new_static_model_catalog is_trimmed sorted entries ≡ ok catalog
unfolding new_static_model_catalog register is_valid_model
built = refl

resolved : resolve is_trimmed sorted (some catalog) "grok" ≡ ok (grok "grok")
unfolding resolve
resolved = refl

resolve_complete_example :
    All
      (λ e.
        (resolve is_trimmed sorted (some catalog) e.public_name ≡ ok e)
        × (is_valid_model is_trimmed sorted e ≡ true))
      entries
resolve_complete_example = resolve_complete is_trimmed sorted entries catalog built

upstream-unambiguous_example :
    All
      (λ a. All (λ b. a.upstream_name ≡ b.upstream_name → canonical a ≡ canonical b) entries)
      entries
upstream-unambiguous_example = upstream-unambiguous is_trimmed sorted entries catalog built
