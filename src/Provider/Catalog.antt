-- ===== src/Provider/Catalog.antt =====
-- internal/provider/catalog.go: the static catalog of models. `is_trimmed` says that strings.TrimSpace
-- leaves a string as it is, and `sorted` is what sort.Slice makes of the models by their public names.
pub mod Laws
mod Tests
use byos.Prelude.{
  ◌≡◌, ◌≢◌, refl, sym, ap, ◌∙◌, String, Bool, true, false, not, Option, none, some, List, [], ◌∷◌,
  All, str_eq, eq_iff, str_eq_refl, ◌&&◌, ◌||◌, if◌then◌else◌, arith, Bool-cases, Option-cases, inl,
  inr, update,
}
use byos.Provider.{Kind, is_valid_kind, ResolvedModel}

pub data Error : Type 0 where
  unknown_model invalid_model duplicate_public_model ambiguous_upstream_model : Error

pub data Result {ℓ} (A : Type ℓ) : Type ℓ where
  ok : A → Result A
  err : Error → Result A

pub record CanonicalModel : Type 0 where
  pub provider : Kind
  pub policy_key : String

-- The two maps that the loop fills; the second one is dropped at its end.
pub record Maps : Type 0 where
  pub by_public : String → Option ResolvedModel
  pub by_upstream : String → Option CanonicalModel

pub record StaticModelCatalog : Type 0 where
  pub by_public : String → Option ResolvedModel
  pub models : List ResolvedModel

abbrev pub canonical : ResolvedModel → CanonicalModel
canonical e = record { provider = e.provider; policy_key = e.policy_key }

abbrev pub same_canonical : CanonicalModel → CanonicalModel → Bool
same_canonical a b = str_eq a.provider b.provider && str_eq a.policy_key b.policy_key

abbrev pub exists : Option ResolvedModel → Bool
exists none = false
exists (some m) = true

-- `exists && existing != canonical`.
abbrev pub conflicts : Option CanonicalModel → CanonicalModel → Bool
conflicts none c = false
conflicts (some existing) c = not (same_canonical existing c)

module _ (is_trimmed : String → Bool) (sorted : List ResolvedModel → List ResolvedModel) where
  is_named : String → Bool
  is_named value = not (str_eq value "") && is_trimmed value

  unfoldable pub is_valid_model : ResolvedModel → Bool
  unfolding is_named
  is_valid_model m =
      is_named m.public_name
      && (is_named m.upstream_name
          && (is_named m.owned_by && (is_named m.policy_key && is_valid_kind m.provider)))

  abbrev pub assigned : {A : Type 0} → (String → Option A) → String → A → String → Option A
  assigned f k v j = if str_eq j k then some v else f j

  abbrev pub add : ResolvedModel → Maps → Maps
  add e m = record {
    by_public = assigned m.by_public e.public_name e;
    by_upstream = assigned m.by_upstream e.upstream_name (canonical e);
  }

  unfoldable pub register : List ResolvedModel → Maps → Result Maps
  unfolding is_valid_model
  register [] m = ok m
  register (e ∷ entries) m =
      let rest = register entries (add e m) in
      if not (is_valid_model e)
      then err invalid_model
      else if exists (m.by_public e.public_name)
      then err duplicate_public_model
      else if conflicts (m.by_upstream e.upstream_name) (canonical e)
      then err ambiguous_upstream_model
      else rest

  published : List ResolvedModel → Result Maps → Result StaticModelCatalog
  published entries (err e) = err e
  published entries (ok m) = ok (record { by_public = m.by_public; models = sorted entries })

  unfoldable pub new_static_model_catalog : List ResolvedModel → Result StaticModelCatalog
  unfolding register published
  new_static_model_catalog entries =
      published entries
        (register entries (record { by_public = λ _. none; by_upstream = λ _. none }))

  found : Option ResolvedModel → Result ResolvedModel
  found none = err unknown_model
  found (some m) = ok m

  resolve_in : Option StaticModelCatalog → String → Result ResolvedModel
  unfolding found
  resolve_in none name = err unknown_model
  resolve_in (some c) name = found (c.by_public name)

  -- `none` is the nil catalog.
  unfoldable pub resolve : Option StaticModelCatalog → String → Result ResolvedModel
  unfolding resolve_in
  resolve c name = resolve_in c name
