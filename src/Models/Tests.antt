-- ===== src/Models/Tests.antt =====
-- A snapshot of two models, a discovery that fails, and an alias.
use byos.Prelude.{
  ◌*◌, ◌≡◌, refl, String, Bool, true, false, Option, none, some, List, [], ◌∷◌, str_eq, str_ne, map,
  if◌then◌else◌,
}
use byos.Time.{second}
use byos.Provider.{ResolvedModel}
use byos.Provider.Catalog.{StaticModelCatalog}
use byos.Store.ModelCapabilities.{Row, list, mark_stale}
use byos.Models.{Model, outdated, capabilities, refresh_from_models, account_supports}
use byos.Models.Laws.{kept, refresh_from_models-outdated, refresh_from_models-other}
use byos.Models.Overlay
use byos.Models.Overlay.{
  StaticCatalogOverlay, IsAlias, new_static_catalog_overlay, new_static_catalog_overlay_lem,
}

abbrev is_account : String → Bool
is_account id = true

abbrev as_stored : List Row → List Row
as_stored rows = rows

abbrev model : String → Option Bool → Model
model id search = record {
  id = id;
  display_name = id;
  context_window = 0;
  max_output_tokens = 0;
  reasoning_efforts = [];
  supports_backend_search = search;
}

abbrev row : String → String → Bool → Row
row account id stale = record {
  account_id = account;
  model = id;
  supported = true;
  supports_backend_search = none;
  display_name = none;
  context_window = 0;
  max_output_tokens = 0;
  reasoning_efforts = [];
  discovered_at = 3;
  stale = stale;
}

abbrev rows : List Row
rows = row "a" "grok-4" false ∷ row "b" "grok-4" false ∷ row "a" "grok-3" false ∷ []

map_as_is :
    (f : Row → Row)
    → ((r : Row) → (f r).model ≡ r.model)
    → (rs : List Row) → as_stored (map f rs) ≡ map f (as_stored rs)
map_as_is f h rs = refl

refresh_from_models-outdated_example :
    refresh_from_models is_account as_stored true "a" [] 0 rows
    ≡ (outdated (kept (capabilities is_account as_stored "a" rows)), mark_stale "a" rows)
refresh_from_models-outdated_example =
    refresh_from_models-outdated is_account as_stored map_as_is "a" [] 0 rows

two_kept :
    kept (capabilities is_account as_stored "a" rows)
    ≡ record (model "grok-4" none) { display_name = "" }
      ∷ record (model "grok-3" none) { display_name = "" }
      ∷ []
unfolding capabilities
two_kept = refl

refresh_from_models-other_example :
    list as_stored "b"
      (refresh_from_models is_account as_stored false "a"
        (model "grok-5" none ∷ [])
        (5 * second)
        rows).1
    ≡ list as_stored "b" rows
refresh_from_models-other_example =
    refresh_from_models-other is_account as_stored false "a" "b" (model "grok-5" none ∷ [])
      (5 * second) rows (str_ne "a" "b" refl)

abbrev resolved : String → String → ResolvedModel
resolved provider name = record {
  public_name = name;
  upstream_name = name;
  provider = provider;
  owned_by = "xai";
  policy_key = "k";
}

after_refresh :
    account_supports is_account as_stored "a"
      (resolved "xai" "grok-4")
      (refresh_from_models is_account as_stored false "a"
        (model "grok-5" (some false) ∷ [])
        (5 * second)
        rows).1
    ≡ false
unfolding account_supports refresh_from_models
after_refresh = refl

abbrev static : StaticModelCatalog
static = record {
  by_public = λ name. if str_eq name "grok-4" then some (resolved "xai" "grok-4") else none;
  models = resolved "xai" "grok-4" ∷ [];
}

abbrev entries : List (String × String)
entries = ("fast", "grok-4") ∷ ("grok-4", "grok-4") ∷ []

abbrev overlay : StaticCatalogOverlay
overlay = record {
  static = static;
  aliases = λ name. if str_eq name "fast" then some (resolved "xai" "grok-4") else none;
}

accepted : new_static_catalog_overlay static entries ≡ Overlay.ok overlay
unfolding new_static_catalog_overlay
accepted = refl

new_static_catalog_overlay_example :
    (static.by_public "fast" ≡ some (resolved "xai" "grok-4")
      → Overlay.resolve overlay "fast" ≡ Overlay.ok (resolved "xai" "grok-4"))
    × (static.by_public "fast" ≡ none
        → Overlay.resolve overlay "fast" ≡ Overlay.ok (resolved "xai" "grok-4")
        → IsAlias static entries "fast" (resolved "xai" "grok-4"))
new_static_catalog_overlay_example =
    new_static_catalog_overlay_lem static entries overlay "fast" (resolved "xai" "grok-4") accepted
