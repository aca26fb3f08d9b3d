-- ===== src/Routing/Scheduler/Admission.antt =====
-- Which accounts `order` (internal/routing/scheduler.go) offers.
use mathlib.Core.List.{Mem, mem-cons_self, not-mem-nil}
use mathlib.Core.Path.{subst}
use native.Mathlib.Bridge.{le_prop}
use byos.Provider.{Kind, is_valid_kind}
use byos.Prelude.{
  ℕ, ◌≤◌, ◌≡◌, refl, sym, ◌↔◌, String, Bool, true, false, List, [], ◌∷◌, str_eq, arith, Bool-cases,
  inl, inr, ◌⊎◌, mem-skip, mem-keep,
}
use byos.Routing.Scheduler.{Candidate, Split, place, split, eligible, eligible_of, is_excluded}

-- What an account must satisfy to be tried for `model` at `now`.
pub record IsAdmissible (kind : Kind) (model : String) (now : ℕ) (a : Candidate) : Type 0 where
  pub owned : is_valid_kind kind ≡ true → str_eq a.provider kind ≡ true
  pub enabled : a.enabled ≡ true
  pub valid : a.valid ≡ true
  pub model_ready : a.cooldown_until model ≤ now
  pub account_ready : a.cooldown_until "*" ≤ now
  pub capable : a.capabilities_known ≡ true → a.capabilities model ≡ true

IsAdmissible-prop :
    (kind : Kind) (model : String) (now : ℕ) (a : Candidate)
    → IsProp (IsAdmissible kind model now a)
IsAdmissible-prop kind model now a = hlevel le_prop

-- An admissible account of the given side.
abbrev IsListed : Kind → String → ℕ → Bool → Candidate → Type 0
IsListed kind model now side a = IsAdmissible kind model now a × (a.capabilities_known ≡ side)

IsListed-prop :
    (kind : Kind) (model : String) (now : ℕ) (side : Bool) (a : Candidate)
    → IsProp (IsListed kind model now side a)
IsListed-prop kind model now side a = hlevel (IsAdmissible-prop kind model now a)

-- The effect of one round of the loop.
data Placed (kind : Kind) (model : String) (now : ℕ) (b : Candidate) (s t : Split) : Type 0 where
  turned_away : (IsAdmissible kind model now b → ⊥) → t ≡ s → Placed kind model now b s t
  to_known :
      IsAdmissible kind model now b
      → b.capabilities_known ≡ true
      → t ≡ record s { known = b ∷ s.known }
      → Placed kind model now b s t
  to_unknown :
      IsAdmissible kind model now b
      → b.capabilities_known ≡ false
      → t ≡ record s { unknown = b ∷ s.unknown }
      → Placed kind model now b s t

pub eligible_of-cases :
    (s : Split)
    → (s.known ≡ []) × (eligible_of s ≡ s.unknown)
      ⊎ ((x : Candidate) × Mem x s.known × (eligible_of s ≡ s.known))
unfolding eligible_of
eligible_of-cases s = go s.known refl
  where
    go :
        (k : List Candidate)
        → s.known ≡ k
        → (s.known ≡ []) × (eligible_of s ≡ s.unknown)
          ⊎ ((x : Candidate) × Mem x s.known × (eligible_of s ≡ s.known))
    go [] e = inl (e, ground arith)
    go (x ∷ k) e = inr (x, subst (Mem x) (sym e) mem-cons_self, ground arith)

module _ (kind : Kind) (model : String) (now : ℕ) where
  not_excluded_iff :
      (a : Candidate)
      → ((is_excluded kind model now a ≡ false)
          × (a.capabilities_known ≡ true → a.capabilities model ≡ true))
        ↔ IsAdmissible kind model now a
  unfolding is_excluded
  not_excluded_iff a = (λ h. ground arith, λ h. ground arith)

  place-cases : (b : Candidate) (s : Split) → Placed kind model now b s (place kind model now b s)
  unfolding place
  place-cases b s = elim (Bool-cases (is_excluded kind model now b)) [
    | inl out ↦ turned_away (λ h. cc ((not_excluded_iff b).1 h).0) (ground arith)
    | inr inside ↦ elim (Bool-cases b.capabilities_known) [
      | inr u ↦ to_unknown ((not_excluded_iff b).0 (inside, λ k. cc)) u (ground arith)
      | inl k ↦ elim (Bool-cases (b.capabilities model)) [
        | inl c ↦ to_known ((not_excluded_iff b).0 (inside, λ _. c)) k (ground arith)
        | inr c ↦ turned_away (λ h. cc (h.capable k)) (ground arith)
      ]
    ]
  ]

  mem-known :
      (a : Candidate) (accounts : List Candidate)
      → Mem a (split kind model now accounts).known
        ↔ (Mem a accounts × IsListed kind model now true a)
  unfolding split
  mem-known a [] = (λ m. absurd (not-mem-nil m), λ h. h.0)
  mem-known a (b ∷ rest) = elim (place-cases b (split kind model now rest)) [
    | turned_away out e ↦ rw e (
        mem-skip (IsListed kind model now true) (IsListed-prop kind model now true) (λ h. out h.0)
          (mem-known a rest))
    | to_known adm k e ↦ rw e (
        mem-keep (IsListed kind model now true) (IsListed-prop kind model now true) (adm, k)
          (mem-known a rest))
    | to_unknown adm k e ↦ rw e (
        mem-skip (IsListed kind model now true) (IsListed-prop kind model now true) (λ h. cc h.1)
          (mem-known a rest))
  ]

  mem-unknown :
      (a : Candidate) (accounts : List Candidate)
      → Mem a (split kind model now accounts).unknown
        ↔ (Mem a accounts × IsListed kind model now false a)
  unfolding split
  mem-unknown a [] = (λ m. absurd (not-mem-nil m), λ h. h.0)
  mem-unknown a (b ∷ rest) = elim (place-cases b (split kind model now rest)) [
    | turned_away out e ↦ rw e (
        mem-skip (IsListed kind model now false) (IsListed-prop kind model now false) (λ h. out h.0)
          (mem-unknown a rest))
    | to_known adm k e ↦ rw e (
        mem-skip (IsListed kind model now false) (IsListed-prop kind model now false) (λ h. cc h.1)
          (mem-unknown a rest))
    | to_unknown adm k e ↦ rw e (
        mem-keep (IsListed kind model now false) (IsListed-prop kind model now false) (adm, k)
          (mem-unknown a rest))
  ]

  -- An account that is known to serve the model hides those of which nothing is known.
  abbrev pub Prefers : List Candidate → Candidate → Type 0
  Prefers accounts a =
      (b : Candidate)
      → Mem b accounts
      → IsAdmissible kind model now b
      → b.capabilities_known ≡ true
      → a.capabilities_known ≡ true

  mem-eligible_of :
      (a : Candidate) (accounts : List Candidate)
      → ((split kind model now accounts).known ≡ [])
          × (eligible kind model now accounts ≡ (split kind model now accounts).unknown)
        ⊎ ((x : Candidate) × Mem x (split kind model now accounts).known
            × (eligible kind model now accounts ≡ (split kind model now accounts).known))
      → Mem a (eligible kind model now accounts)
        ↔ (Mem a accounts × IsAdmissible kind model now a × Prefers accounts a)
  mem-eligible_of a accounts (inl (empty, e)) = rw e (
    λ m.
        let (here, l) = (mem-unknown a accounts).0 m in
        (
          here,
          l.0,
          λ b hb adm_b k.
              absurd
                (not-mem-nil (subst (Mem b) empty ((mem-known b accounts).1 (hb, (adm_b, k))))),
        ),
    λ h. elim (Bool-cases a.capabilities_known) [
      | inl k ↦
          absurd (not-mem-nil (subst (Mem a) empty ((mem-known a accounts).1 (h.0, (h.1, k)))))
      | inr u ↦ (mem-unknown a accounts).1 (h.0, (h.1, u))
    ],
  )
  mem-eligible_of a accounts (inr (x, hx, e)) = rw e (
    λ m. let (here, l) = (mem-known a accounts).0 m in (here, l.0, λ b hb adm_b k'. l.1),
    λ h.
        let (here, l) = (mem-known x accounts).0 hx in
        (mem-known a accounts).1 (h.0, (h.1, h.2 x here l.0 l.1)),
  )

  -- The accounts that are offered: the admissible ones, or of these the ones known to serve the
  -- model, if there are any.
  pub mem-eligible :
      (a : Candidate) (accounts : List Candidate)
      → Mem a (eligible kind model now accounts)
        ↔ (Mem a accounts × IsAdmissible kind model now a × Prefers accounts a)
  unfolding eligible
  mem-eligible a accounts =
      mem-eligible_of a accounts (eligible_of-cases (split kind model now accounts))
