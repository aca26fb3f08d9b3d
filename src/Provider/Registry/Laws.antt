-- ===== src/Provider/Registry/Laws.antt =====
-- What the registry of internal/provider/registry.go answers, once it is built.
use byos.Prelude.{
  ◌≡◌, refl, sym, ap, ◌∙◌, String, Bool, true, false, not, Option, none, some, List, [], ◌∷◌, All,
  str_eq, eq_iff, str_eq_refl, ◌&&◌, if◌then◌else◌, arith, Bool-cases, inl, inr,
}
use byos.Provider.{Kind}
use byos.Provider.Registry.{
  invalid_capability_key, invalid_capabilities, duplicate_capability_key, Result, ok, err, is_set,
  Capabilities, CapabilityRegistration, has_some, has_all, is_valid, Registry, add, register,
  new_capability_registry, capabilities,
}

module _ {Impl : Type 0} where
  guards :
      (a b c d : Bool) (rest : Result (Registry Impl)) (n : Registry Impl)
      → (if not a
          then err invalid_capability_key
          else if b
          then err invalid_capability_key
          else if not c
          then err invalid_capabilities
          else if d
          then err duplicate_capability_key
          else rest)
        ≡ ok n
      → (c ≡ true) × (d ≡ false) × (rest ≡ ok n)
  guards true false true false rest n h = (refl, refl, h)
  guards true false true true rest n h = absurd (cc)
  guards true false false d rest n h = absurd (cc)
  guards true true c d rest n h = absurd (cc)
  guards false b c d rest n h = absurd (cc)

  -- What was there stays, if the new key was not.
  add-keeps :
      (r : CapabilityRegistration Impl) (m : Registry Impl) (kind : Kind) (key : String)
      (c : Capabilities Impl)
      → is_set (m r.provider r.policy_key) ≡ false
      → m kind key ≡ some c
      → add r m kind key ≡ some c
  add-keeps r m kind key c new h =
      elim (Bool-cases (str_eq kind r.provider && str_eq key r.policy_key)) [
        | inr miss ↦ rw miss h
        | inl hit ↦
            let same_kind : kind ≡ r.provider = ground (arith, eq_iff kind r.provider) in
            let same_key : key ≡ r.policy_key = ground (arith, eq_iff key r.policy_key) in
            absurd (
              clash (m r.provider r.policy_key) new
                (ap (λ k. m k r.policy_key) (sym same_kind) ∙ ap (m kind) (sym same_key) ∙ h))
      ]
    where
      clash : (o : Option (Capabilities Impl)) → is_set o ≡ false → o ≡ some c → ⊥
      clash none p q = cc
      clash (some x) p q = cc

  module _ (is_trimmed : String → Bool) where
    register-cons :
        (r : CapabilityRegistration Impl) (l : List (CapabilityRegistration Impl))
        (m n : Registry Impl)
        → register is_trimmed (r ∷ l) m ≡ ok n
        → (is_valid r.capabilities ≡ true)
          × (is_set (m r.provider r.policy_key) ≡ false)
          × (register is_trimmed l (add r m) ≡ ok n)
    unfolding register
    register-cons r l m n h = guards _ _ _ _ _ n h

    register-keeps :
        (l : List (CapabilityRegistration Impl)) (m n : Registry Impl) (kind : Kind) (key : String)
        (c : Capabilities Impl)
        → register is_trimmed l m ≡ ok n
        → m kind key ≡ some c
        → n kind key ≡ some c
    unfolding register
    register-keeps [] m n kind key c h q =
        let same : m ≡ n = cc in ap (λ f. f kind key) (sym same) ∙ q
    register-keeps (r ∷ l) m n kind key c h q =
        let (valid, new, rest) = register-cons r l m n h in
        register-keeps l (add r m) n kind key c rest (add-keeps r m kind key c new q)

    all-of_trio : (c : Capabilities Impl) → is_valid c ≡ true → has_some c ≡ true → has_all c ≡ true
    unfolding is_valid
    all-of_trio c h s = ground arith

    register_complete :
        (l : List (CapabilityRegistration Impl)) (m n : Registry Impl)
        → register is_trimmed l m ≡ ok n
        → All
            (λ r.
              (capabilities (some n) r.provider r.policy_key ≡ some r.capabilities)
              × (has_some r.capabilities ≡ true → has_all r.capabilities ≡ true))
            l
    unfolding capabilities
    register_complete [] m n h = tt
    register_complete (r ∷ l) m n h =
        let (valid, new, rest) = register-cons r l m n h in
        (
          (
            register-keeps l (add r m) n r.provider r.policy_key r.capabilities rest
                (rw (str_eq_refl r.provider, str_eq_refl r.policy_key) refl),
            all-of_trio r.capabilities valid,
          ),
          register_complete l (add r m) n rest,
        )

    -- A registry that was built answers with the capabilities of every registration for its provider and
    -- policy key, and those that have a policy, a generation client or credentials have all three.
    pub new_capability_registry_complete :
        (l : List (CapabilityRegistration Impl)) (n : Registry Impl)
        → new_capability_registry is_trimmed l ≡ ok n
        → All
            (λ r.
              (capabilities (some n) r.provider r.policy_key ≡ some r.capabilities)
              × (has_some r.capabilities ≡ true → has_all r.capabilities ≡ true))
            l
    unfolding new_capability_registry
    new_capability_registry_complete l n h = register_complete l (λ _ _. none) n h
