-- ===== src/Provider/Catalog/Laws.antt =====
-- What the catalog of internal/provider/catalog.go resolves, once it is built.
use mathlib.Core.List.{Mem, mem-cons}
use mathlib.Core.Logic.Or
use byos.Prelude.{
  ◌≡◌, refl, sym, ap, ◌∙◌, String, Bool, true, false, not, Option, none, some, List, [], ◌∷◌, All,
  str_eq, eq_iff, str_eq_refl, ◌⊎◌, if◌then◌else◌, arith, Bool-cases, inl, inr,
}
use byos.Provider.{ResolvedModel}
use byos.Provider.Catalog.{
  invalid_model, duplicate_public_model, ambiguous_upstream_model, Result, ok, err, CanonicalModel,
  Maps, StaticModelCatalog, canonical, same_canonical, exists, conflicts, is_valid_model, add,
  register, published, new_static_model_catalog, resolve, found,
}

guards :
    (a b c : Bool) (rest : Result Maps) (n : Maps)
    → (if not a
        then err invalid_model
        else if b
        then err duplicate_public_model
        else if c
        then err ambiguous_upstream_model
        else rest)
      ≡ ok n
    → (a ≡ true) × (b ≡ false) × (c ≡ false) × (rest ≡ ok n)
guards true false false rest n h = (refl, refl, refl, h)
guards true false true rest n h = absurd (cc)
guards true true c rest n h = absurd (cc)
guards false b c rest n h = absurd (cc)

-- Every registration of the one map is one of the other.
record Extends (m n : Maps) : Type 0 where
  public : (k : String) (e : ResolvedModel) → m.by_public k ≡ some e → n.by_public k ≡ some e
  upstream : (k : String) (c : CanonicalModel) → m.by_upstream k ≡ some c → n.by_upstream k ≡ some c

module _ (is_trimmed : String → Bool) (sorted : List ResolvedModel → List ResolvedModel) where
  -- What a registration that succeeded says of an entry.
  pub record Registered (n : Maps) (e : ResolvedModel) : Type 0 where
    pub valid : is_valid_model is_trimmed sorted e ≡ true
    pub public : n.by_public e.public_name ≡ some e
    pub upstream : n.by_upstream e.upstream_name ≡ some (canonical e)

  register-cons :
      (e : ResolvedModel) (entries : List ResolvedModel) (m n : Maps)
      → register is_trimmed sorted (e ∷ entries) m ≡ ok n
      → (is_valid_model is_trimmed sorted e ≡ true)
        × (exists (m.by_public e.public_name) ≡ false)
        × (conflicts (m.by_upstream e.upstream_name) (canonical e) ≡ false)
        × (register is_trimmed sorted entries (add is_trimmed sorted e m) ≡ ok n)
  unfolding register
  register-cons e entries m n h = guards _ _ _ _ n h

  no_entry : (o : Option ResolvedModel) (f : ResolvedModel) → exists o ≡ false → o ≡ some f → ⊥
  no_entry none f h k = cc
  no_entry (some g) f h k = cc

  agrees :
      (o : Option CanonicalModel) (c d : CanonicalModel)
      → conflicts o c ≡ false
      → o ≡ some d
      → some c ≡ some d
  agrees none c d h k = absurd (cc)
  agrees (some x) c d h k =
      let same : x ≡ d = cc in ap some (same_canonical-eq x c (ground arith)) ∙ ap some same
    where
      same_canonical-eq : (x c : CanonicalModel) → same_canonical x c ≡ true → c ≡ x
      same_canonical-eq x c h =
          ground (arith, eq_iff x.provider c.provider, eq_iff x.policy_key c.policy_key)

  add-Extends :
      (e : ResolvedModel) (m : Maps)
      → exists (m.by_public e.public_name) ≡ false
      → conflicts (m.by_upstream e.upstream_name) (canonical e) ≡ false
      → Extends m (add is_trimmed sorted e m)
  add-Extends e m new agree = record {
    public = λ k f h. elim (Bool-cases (str_eq k e.public_name)) [
      | inl hit ↦ absurd (
          no_entry (m.by_public e.public_name) f new
            (ap m.by_public (sym ((eq_iff k e.public_name).0 hit)) ∙ h))
      | inr miss ↦ rw miss h
    ];
    upstream = λ k c h. elim (Bool-cases (str_eq k e.upstream_name)) [
      | inl hit ↦ rw hit (
          agrees (m.by_upstream e.upstream_name) (canonical e) c agree
            (ap m.by_upstream (sym ((eq_iff k e.upstream_name).0 hit)) ∙ h))
      | inr miss ↦ rw miss h
    ];
  }

  register-Extends :
      (entries : List ResolvedModel) (m n : Maps)
      → register is_trimmed sorted entries m ≡ ok n
      → Extends m n
  unfolding register
  register-Extends [] m n h =
      let same : m ≡ n = cc in
      record {
        public = λ k e q. ap (λ x. x.by_public k) (sym same) ∙ q;
        upstream = λ k c q. ap (λ x. x.by_upstream k) (sym same) ∙ q;
      }
  register-Extends (e ∷ entries) m n h =
      let (valid, new, agree, rest) = register-cons e entries m n h in
      let step = add-Extends e m new agree in
      let more = register-Extends entries (add is_trimmed sorted e m) n rest in
      record {
        public = λ k f q. more.public k f (step.public k f q);
        upstream = λ k c q. more.upstream k c (step.upstream k c q);
      }

  register-Registered :
      (entries : List ResolvedModel) (m n : Maps)
      → register is_trimmed sorted entries m ≡ ok n
      → All (Registered n) entries
  register-Registered [] m n h = tt
  register-Registered (e ∷ entries) m n h =
      let (valid, new, agree, rest) = register-cons e entries m n h in
      let more = register-Extends entries (add is_trimmed sorted e m) n rest in
      (
        record {
          valid = valid;
          public = more.public e.public_name e (rw (str_eq_refl e.public_name) refl);
          upstream =
              more.upstream e.upstream_name (canonical e) (rw (str_eq_refl e.upstream_name) refl);
        },
        register-Registered entries (add is_trimmed sorted e m) n rest,
      )

  Origin : List ResolvedModel → Maps → String → ResolvedModel → Type 0
  Origin entries m name e = (m.by_public name ≡ some e) ⊎ (Mem e entries × (e.public_name ≡ name))

  register-Origin :
      (entries : List ResolvedModel) (m n : Maps) (name : String) (e : ResolvedModel)
      → register is_trimmed sorted entries m ≡ ok n
      → n.by_public name ≡ some e
      → Origin entries m name e
  unfolding register Origin
  register-Origin [] m n name e h q =
      let same : m ≡ n = cc in inl (ap (λ x. x.by_public name) same ∙ q)
  register-Origin (f ∷ entries) m n name e h q =
      let (valid, new, agree, rest) = register-cons f entries m n h in
      elim (register-Origin entries (add is_trimmed sorted f m) n name e rest q) [
        | inr (member, named) ↦ inr (mem-cons.1 (Or.inr member), named)
        | inl here ↦ elim (Bool-cases (str_eq name f.public_name)) [
          | inl hit ↦
              let same : some f ≡ some e = rw hit at here in
              let eq : e ≡ f = cc in
              inr (
                mem-cons.1 (Or.inl eq),
                ap (λ x. x.public_name) eq ∙ sym ((eq_iff name f.public_name).0 hit),
              )
          | inr miss ↦ inl (rw miss at here)
        ]
      ]

  pub record Built (entries : List ResolvedModel) (c : StaticModelCatalog) : Type 0 where
    pub maps : Maps
    pub registered :
        register is_trimmed sorted entries
          (record { by_public = λ _. none; by_upstream = λ _. none })
        ≡ ok maps
    pub kept : maps.by_public ≡ c.by_public

  published-Built :
      (entries : List ResolvedModel) (r : Result Maps) (c : StaticModelCatalog)
      → register is_trimmed sorted entries
          (record { by_public = λ _. none; by_upstream = λ _. none })
        ≡ r
      → published is_trimmed sorted entries r ≡ ok c
      → Built entries c
  unfolding published
  published-Built entries (err e) c q h = absurd (cc)
  published-Built entries (ok m) c q h = record { maps = m; registered = q; kept = cc }

  module _ (entries : List ResolvedModel) (c : StaticModelCatalog)
      (built : new_static_model_catalog is_trimmed sorted entries ≡ ok c) where
    new_static_model_catalog-Built : Built entries c
    unfolding new_static_model_catalog
    new_static_model_catalog-Built =
        published-Built entries
          (register is_trimmed sorted entries
            (record { by_public = λ _. none; by_upstream = λ _. none }))
          c refl built

    all_resolved :
        (l : List ResolvedModel) (n : Maps)
        → n.by_public ≡ c.by_public
        → All (Registered n) l
        → All
            (λ e.
              (resolve is_trimmed sorted (some c) e.public_name ≡ ok e)
              × (is_valid_model is_trimmed sorted e ≡ true))
            l
    unfolding resolve found
    all_resolved [] n k h = tt
    all_resolved (e ∷ l) n k h = (
      (ap (found is_trimmed sorted) (ap (λ f. f e.public_name) (sym k) ∙ h.0.public), h.0.valid),
      all_resolved l n k h.1,
    )

    -- A catalog that was built resolves the public name of each of its entries to that entry, and every
    -- entry is valid: its names and its policy key are not blank and not padded, and its provider is known.
    pub resolve_complete :
        All
          (λ e.
            (resolve is_trimmed sorted (some c) e.public_name ≡ ok e)
            × (is_valid_model is_trimmed sorted e ≡ true))
          entries
    resolve_complete =
        all_resolved entries new_static_model_catalog-Built.maps new_static_model_catalog-Built.kept
          (register-Registered entries _ new_static_model_catalog-Built.maps
            new_static_model_catalog-Built.registered)

    found-some :
        (o : Option ResolvedModel) (e : ResolvedModel)
        → found is_trimmed sorted o ≡ ok e
        → o ≡ some e
    unfolding found
    found-some none e h = absurd (cc)
    found-some (some x) e h = let same : x ≡ e = cc in ap some same

    -- What a catalog that was built resolves a name to is one of its entries, with that public name.
    pub resolve_sound :
        (name : String) (e : ResolvedModel)
        → resolve is_trimmed sorted (some c) name ≡ ok e
        → Mem e entries × (e.public_name ≡ name)
    unfolding resolve Origin
    resolve_sound name e h =
        elim (register-Origin entries (record { by_public = λ _. none; by_upstream = λ _. none })
          new_static_model_catalog-Built.maps name e new_static_model_catalog-Built.registered
          (ap (λ f. f name) new_static_model_catalog-Built.kept
            ∙ found-some (c.by_public name) e h)) [
              | inl none_before ↦ absurd (cc)
              | inr origin ↦ origin
            ]

    agreeing :
        (a : ResolvedModel) (l : List ResolvedModel) (n : Maps)
        → Registered n a
        → All (Registered n) l
        → All (λ b. a.upstream_name ≡ b.upstream_name → canonical a ≡ canonical b) l
    agreeing a [] n ha h = tt
    agreeing a (b ∷ l) n ha h =
        (λ q. same (sym ha.upstream ∙ ap n.by_upstream q ∙ h.0.upstream), agreeing a l n ha h.1)
      where
        same : {x y : CanonicalModel} → ◌≡◌ {A = Option CanonicalModel} (some x) (some y) → x ≡ y
        same q = cc

    all_agreeing :
        (l k : List ResolvedModel) (n : Maps)
        → All (Registered n) l
        → All (Registered n) k
        → All (λ a. All (λ b. a.upstream_name ≡ b.upstream_name → canonical a ≡ canonical b) k) l
    all_agreeing [] k n hl hk = tt
    all_agreeing (a ∷ l) k n hl hk = (agreeing a k n hl.0 hk, all_agreeing l k n hl.1 hk)

    -- In a catalog that was built, entries with the same upstream name have the same provider and the
    -- same policy key.
    pub upstream-unambiguous :
        All
          (λ a. All (λ b. a.upstream_name ≡ b.upstream_name → canonical a ≡ canonical b) entries)
          entries
    upstream-unambiguous =
        let h =
          register-Registered entries _ new_static_model_catalog-Built.maps
            new_static_model_catalog-Built.registered in
        all_agreeing entries entries new_static_model_catalog-Built.maps h h
