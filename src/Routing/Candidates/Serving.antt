-- ===== src/Routing/Candidates/Serving.antt =====
-- Which accounts the first loop of `allCoolingClassification` (internal/routing/execute.go) takes.
use mathlib.Core.List.{Mem, not-mem-nil}
use mathlib.Core.Path.{subst}
use byos.Prelude.{
  ◌≡◌, ◌↔◌, String, Bool, true, false, List, [], ◌∷◌, str_eq, arith, Bool-cases, inl, inr, mem-skip,
  mem-keep,
}
use byos.Provider.{Kind}
use byos.Routing.Scheduler.{Candidate, Split, eligible_of}
use byos.Routing.Scheduler.Admission.{eligible_of-cases}
use byos.Routing.Candidates.{pool}

-- What an account must satisfy to serve a model of a provider, be it cooling down or not.
pub record Serves (kind : Kind) (model : String) (a : Candidate) : Type 0 where
  pub owned : str_eq a.provider kind ≡ true
  pub enabled : a.enabled ≡ true
  pub valid : a.valid ≡ true
  pub capable : a.capabilities_known ≡ true → a.capabilities model ≡ true

-- One of the accounts that serve the model, if none of them or it too is known to have the capability.
pub record IsServing (kind : Kind) (model : String) (accounts : List Candidate) (a : Candidate)
    : Type 0 where
  pub listed : Mem a accounts
  pub serves : Serves kind model a
  pub preferred :
      (b : Candidate)
      → Mem b accounts
      → Serves kind model b
      → b.capabilities_known ≡ true
      → a.capabilities_known ≡ true

Serves-prop : (kind : Kind) (model : String) (a : Candidate) → IsProp (Serves kind model a)
Serves-prop kind model a = hlevel

-- An account of the given side.
abbrev IsTaken : Kind → String → Bool → Candidate → Type 0
IsTaken kind model side a = Serves kind model a × (a.capabilities_known ≡ side)

IsTaken-prop :
    (kind : Kind) (model : String) (side : Bool) (a : Candidate)
    → IsProp (IsTaken kind model side a)
IsTaken-prop kind model side a = hlevel (Serves-prop kind model a)

-- The effect of one round of the loop.
data Placed (kind : Kind) (model : String) (b : Candidate) (s t : Split) : Type 0 where
  turned_away : (Serves kind model b → ⊥) → t ≡ s → Placed kind model b s t
  to_known :
      Serves kind model b
      → b.capabilities_known ≡ true
      → t ≡ record s { known = b ∷ s.known }
      → Placed kind model b s t
  to_unknown :
      Serves kind model b
      → b.capabilities_known ≡ false
      → t ≡ record s { unknown = b ∷ s.unknown }
      → Placed kind model b s t

module _ (kind : Kind) (model : String) where
  pool-Placed :
      (b : Candidate) (rest : List Candidate)
      → Placed kind model b (pool kind model rest) (pool kind model (b ∷ rest))
  unfolding pool
  pool-Placed b rest = elim (Bool-cases (str_eq b.provider kind)) [
    | inr o ↦ turned_away (λ h. cc h.owned) (ground arith)
    | inl o ↦ elim (Bool-cases b.enabled) [
      | inr e ↦ turned_away (λ h. cc h.enabled) (ground arith)
      | inl e ↦ elim (Bool-cases b.valid) [
        | inr v ↦ turned_away (λ h. cc h.valid) (ground arith)
        | inl v ↦ elim (Bool-cases b.capabilities_known) [
          | inr u ↦
              to_unknown (record { owned = o; enabled = e; valid = v; capable = λ k. cc }) u
                (ground arith)
          | inl k ↦ elim (Bool-cases (b.capabilities model)) [
            | inl c ↦
                to_known (record { owned = o; enabled = e; valid = v; capable = λ _. c }) k
                  (ground arith)
            | inr c ↦ turned_away (λ h. cc (h.capable k)) (ground arith)
          ]
        ]
      ]
    ]
  ]

  mem-known :
      (a : Candidate) (accounts : List Candidate)
      → Mem a (pool kind model accounts).known ↔ (Mem a accounts × IsTaken kind model true a)
  unfolding pool
  mem-known a [] = (λ m. absurd (not-mem-nil m), λ h. h.0)
  mem-known a (b ∷ rest) = elim (pool-Placed b rest) [
    | turned_away out e ↦ rw e (
        mem-skip (IsTaken kind model true) (IsTaken-prop kind model true) (λ h. out h.0)
          (mem-known a rest))
    | to_known s k e ↦ rw e (
        mem-keep (IsTaken kind model true) (IsTaken-prop kind model true) (s, k) (mem-known a rest))
    | to_unknown s k e ↦ rw e (
        mem-skip (IsTaken kind model true) (IsTaken-prop kind model true) (λ h. cc h.1)
          (mem-known a rest))
  ]

  mem-unknown :
      (a : Candidate) (accounts : List Candidate)
      → Mem a (pool kind model accounts).unknown ↔ (Mem a accounts × IsTaken kind model false a)
  unfolding pool
  mem-unknown a [] = (λ m. absurd (not-mem-nil m), λ h. h.0)
  mem-unknown a (b ∷ rest) = elim (pool-Placed b rest) [
    | turned_away out e ↦ rw e (
        mem-skip (IsTaken kind model false) (IsTaken-prop kind model false) (λ h. out h.0)
          (mem-unknown a rest))
    | to_known s k e ↦ rw e (
        mem-skip (IsTaken kind model false) (IsTaken-prop kind model false) (λ h. cc h.1)
          (mem-unknown a rest))
    | to_unknown s k e ↦ rw e (
        mem-keep (IsTaken kind model false) (IsTaken-prop kind model false) (s, k)
          (mem-unknown a rest))
  ]

  -- The accounts that the second loop goes through.
  pub mem-pool :
      (a : Candidate) (accounts : List Candidate)
      → Mem a (eligible_of (pool kind model accounts)) ↔ IsServing kind model accounts a
  mem-pool a accounts = elim (eligible_of-cases (pool kind model accounts)) [
    | inl (empty, e) ↦ rw e (
      λ m.
          let (here, l) = (mem-unknown a accounts).0 m in
          record {
            listed = here;
            serves = l.0;
            preferred = λ b hb s k.
                absurd (not-mem-nil (subst (Mem b) empty ((mem-known b accounts).1 (hb, (s, k)))));
          },
      λ h. elim (Bool-cases a.capabilities_known) [
        | inl k ↦
            absurd (
              not-mem-nil
                (subst (Mem a) empty ((mem-known a accounts).1 (h.listed, (h.serves, k)))))
        | inr u ↦ (mem-unknown a accounts).1 (h.listed, (h.serves, u))
      ],
    )
    | inr (x, hx, e) ↦ rw e (
      λ m.
          let (here, l) = (mem-known a accounts).0 m in
          record { listed = here; serves = l.0; preferred = λ b hb s k. l.1 },
      λ h.
          let (here, l) = (mem-known x accounts).0 hx in
          (mem-known a accounts).1 (h.listed, (h.serves, h.preferred x here l.0 l.1)),
    )
  ]
