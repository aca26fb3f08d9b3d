-- ===== src/Models/Overlay.antt =====
-- internal/models/catalog.go: the aliases that are laid over the static catalog. The entries come in the
-- order of the map's iteration. A static catalog that is nil is not modelled.
use mathlib.Core.Logic.Or
use mathlib.Core.Path.{subst}
use mathlib.Core.List.{Mem, mem-cons, mem-cons_self}
use byos.Prelude.{
  ◌⊎◌, ◌≡◌, refl, sym, ap, ◌∙◌, String, Bool, true, false, not, Option, none, some, List, [], ◌∷◌,
  str_eq, ◌&&◌, if◌then◌else◌, eq_iff, inl, inr,
}
use byos.Provider.{ResolvedModel}
use byos.Provider.Catalog.{StaticModelCatalog}

pub data Error : Type 0 where
  conflicts unknown_model redirects : Error

pub data Result {ℓ} (A : Type ℓ) : Type ℓ where
  ok : A → Result A
  err : Error → Result A

abbrev pub Aliases : Type 0
Aliases = String → Option ResolvedModel

pub record StaticCatalogOverlay : Type 0 where
  pub static : StaticModelCatalog
  pub aliases : Aliases

abbrev pub with_alias : String → ResolvedModel → Aliases → Aliases
with_alias alias m f name = if str_eq name alias then some m else f name

abbrev pub is_xai : ResolvedModel → Bool
is_xai m = str_eq m.provider "xai"

-- A round of the loop, given what the static catalog has for the target, and for the alias.
unfoldable pub add_canonical : String → Option ResolvedModel → Aliases → Result Aliases
add_canonical alias none aliases = err unknown_model
add_canonical alias (some m) aliases =
    if not (is_xai m) then err redirects else ok (with_alias alias m aliases)

unfoldable pub add_alias :
    String × String → Option ResolvedModel → Option ResolvedModel → Aliases → Result Aliases
unfolding add_canonical
add_alias e (some fixed) canonical aliases =
    if is_xai fixed && str_eq fixed.upstream_name e.1 then ok aliases else err conflicts
add_alias e none canonical aliases = add_canonical e.0 canonical aliases

add_rest : (Aliases → Result Aliases) → Result Aliases → Result Aliases
add_rest next (err problem) = err problem
add_rest next (ok m) = next m

unfoldable pub add_all : StaticModelCatalog → List (String × String) → Aliases → Result Aliases
unfolding add_alias add_rest
add_all static [] aliases = ok aliases
add_all static (e ∷ es) aliases =
    add_rest (add_all static es) (add_alias e (static.by_public e.0) (static.by_public e.1) aliases)

laid : StaticModelCatalog → Result Aliases → Result StaticCatalogOverlay
laid static (err problem) = err problem
laid static (ok m) = ok (record { static = static; aliases = m })

unfoldable pub new_static_catalog_overlay :
    StaticModelCatalog → List (String × String) → Result StaticCatalogOverlay
unfolding add_all laid
new_static_catalog_overlay static aliases = laid static (add_all static aliases (λ _. none))

abbrev pub first_of : Option ResolvedModel → Option ResolvedModel → Result ResolvedModel
first_of (some fixed) alias = ok fixed
first_of none none = err unknown_model
first_of none (some m) = ok m

-- static.Resolve is a look-up in `by_public`.
unfoldable pub resolve : StaticCatalogOverlay → String → Result ResolvedModel
resolve c name = first_of (c.static.by_public name) (c.aliases name)

-- An entry of the configuration that makes `name` stand for `m`.
pub record IsAlias (static : StaticModelCatalog) (entries : List (String × String)) (name : String)
    (m : ResolvedModel) : Type 0 where
  pub target : String
  pub listed : Mem (name, target) entries
  pub canonical : static.by_public target ≡ some m
  pub provider : m.provider ≡ "xai"

passed :
    (b : Bool) (problem : Error) (f g : Aliases)
    → (if not b then err problem else ok f) ≡ ok g
    → (b ≡ true) × (f ≡ g)
passed true problem f g h = (refl, cc)
passed false problem f g h = absurd (cc)

skipped :
    (b : Bool) (problem : Error) (f g : Aliases) → (if b then ok f else err problem) ≡ ok g → f ≡ g
skipped true problem f g h = cc
skipped false problem f g h = absurd (cc)

chosen :
    (b : Bool) (c m : ResolvedModel) (o : Option ResolvedModel)
    → (if b then some c else o) ≡ some m
    → (o ≡ some m) ⊎ ((b ≡ true) × (c ≡ m))
chosen true c m o h = inr (refl, cc)
chosen false c m o h = inl h

module _ (static : StaticModelCatalog) where
  abbrev Step : String × String → Aliases → Aliases → Type 0
  Step e f g =
      (name : String) (m : ResolvedModel)
      → g name ≡ some m
      → (f name ≡ some m) ⊎ ((name ≡ e.0) × (static.by_public e.1 ≡ some m) × (m.provider ≡ "xai"))

  add_canonical-Step :
      (e : String × String) (c : Option ResolvedModel) (f g : Aliases)
      → static.by_public e.1 ≡ c
      → add_canonical e.0 c f ≡ ok g
      → Step e f g
  unfolding add_canonical
  add_canonical-Step e none f g hc h name m q = absurd (cc)
  add_canonical-Step e (some c) f g hc h name m q =
      let done = passed (is_xai c) redirects (with_alias e.0 c f) g h in
      elim (chosen (str_eq name e.0) c m (f name) (ap (λ k. k name) done.1 ∙ q)) [
        | inl old ↦ inl old
        | inr new ↦ inr (
          (eq_iff name e.0).0 new.0,
          hc ∙ ap (λ x. some x) new.1,
          sym (ap (λ x. x.provider) new.1) ∙ (eq_iff c.provider "xai").0 done.0,
        )
      ]

  add_alias-Step :
      (e : String × String) (a : Option ResolvedModel) (f g : Aliases)
      → add_alias e a (static.by_public e.1) f ≡ ok g
      → Step e f g
  unfolding add_alias
  add_alias-Step e none f g h name m q =
      add_canonical-Step e (static.by_public e.1) f g refl h name m q
  add_alias-Step e (some fixed) f g h name m q = inl (
      ap (λ k. k name) (skipped (is_xai fixed && str_eq fixed.upstream_name e.1) conflicts f g h)
      ∙ q)

  abbrev Origin : List (String × String) → Aliases → Aliases → Type 0
  Origin es f g =
      (name : String) (m : ResolvedModel)
      → g name ≡ some m
      → (f name ≡ some m) ⊎ IsAlias static es name m

  first-IsAlias :
      (e : String × String) (es : List (String × String)) (name : String) (m : ResolvedModel)
      → name ≡ e.0
      → static.by_public e.1 ≡ some m
      → m.provider ≡ "xai"
      → IsAlias static (e ∷ es) name m
  first-IsAlias e es name m hn hc hp = record {
    target = e.1;
    listed = subst (λ k. Mem (k, e.1) (e ∷ es)) (sym hn) mem-cons_self;
    canonical = hc;
    provider = hp;
  }

  later-IsAlias :
      (e : String × String) (es : List (String × String)) (name : String) (m : ResolvedModel)
      → IsAlias static es name m
      → IsAlias static (e ∷ es) name m
  later-IsAlias e es name m a = record {
    target = a.target;
    listed = mem-cons.1 (Or.inr a.listed);
    canonical = a.canonical;
    provider = a.provider;
  }

  rest-Origin :
      (e : String × String) (es : List (String × String)) (f g : Aliases) (r : Result Aliases)
      → add_alias e (static.by_public e.0) (static.by_public e.1) f ≡ r
      → add_rest (add_all static es) r ≡ ok g
      → ((k l : Aliases) → add_all static es k ≡ ok l → Origin es k l)
      → Origin (e ∷ es) f g
  unfolding add_rest
  rest-Origin e es f g (err problem) hr h ih name m q = absurd (cc)
  rest-Origin e es f g (ok k) hr h ih name m q = elim (ih k g h name m q) [
    | inl old ↦ elim (add_alias-Step e (static.by_public e.0) f k hr name m old) [
      | inl older ↦ inl older
      | inr new ↦ inr (first-IsAlias e es name m new.0 new.1 new.2)
    ]
    | inr later ↦ inr (later-IsAlias e es name m later)
  ]

  add_all-Origin :
      (es : List (String × String)) (f g : Aliases) → add_all static es f ≡ ok g → Origin es f g
  unfolding add_all
  add_all-Origin [] f g h name m q = let same : f ≡ g = cc in inl (ap (λ k. k name) same ∙ q)
  add_all-Origin (e ∷ es) f g h name m q =
      rest-Origin e es f g (add_alias e (static.by_public e.0) (static.by_public e.1) f) refl h
        (add_all-Origin es) name m q

record Laid (static : StaticModelCatalog) (r : Result Aliases) (c : StaticCatalogOverlay)
    : Type 0 where
  same_static : static ≡ c.static
  same_aliases : r ≡ ok c.aliases

laid-Laid :
    (static : StaticModelCatalog) (r : Result Aliases) (c : StaticCatalogOverlay)
    → laid static r ≡ ok c
    → Laid static r c
unfolding laid
laid-Laid static (err problem) c h = absurd (cc)
laid-Laid static (ok f) c h =
    let same : ◌≡◌ {A = StaticCatalogOverlay} (record { static = static; aliases = f }) c = cc in
    record { same_static = ap (λ x. x.static) same; same_aliases = ap (λ x. ok x.aliases) same }

fallen_back :
    (o a : Option ResolvedModel) (m : ResolvedModel) → o ≡ none → first_of o a ≡ ok m → a ≡ some m
fallen_back none none m ho h = absurd (cc)
fallen_back none (some k) m ho h = cc
fallen_back (some k) a m ho h = absurd (cc)

nothing_before : (m : ResolvedModel) → none ≡ some m → ⊥
nothing_before m h = cc

-- A name of the static catalog keeps its model under any aliases that are accepted; and any other name
-- that resolves is an alias in the configuration, for a model of the static catalog whose provider is xai.
pub new_static_catalog_overlay_lem :
    (static : StaticModelCatalog) (entries : List (String × String)) (c : StaticCatalogOverlay)
    (name : String) (m : ResolvedModel)
    → new_static_catalog_overlay static entries ≡ ok c
    → (static.by_public name ≡ some m → resolve c name ≡ ok m)
      × (static.by_public name ≡ none → resolve c name ≡ ok m → IsAlias static entries name m)
unfolding new_static_catalog_overlay resolve
new_static_catalog_overlay_lem static entries c name m h =
    let parts = laid-Laid static (add_all static entries (λ _. none)) c h in
    let looked : static.by_public name ≡ c.static.by_public name =
      ap (λ x. x.by_public name) parts.same_static in
    (
      λ q. ap (λ o. first_of o (c.aliases name)) (sym looked ∙ q),
      λ q r.
          elim (add_all-Origin static entries (λ _. none) c.aliases parts.same_aliases name m
            (fallen_back (c.static.by_public name) (c.aliases name) m (sym looked ∙ q) r)) [
              | inl old ↦ absurd (nothing_before m old)
              | inr new ↦ new
            ],
    )
