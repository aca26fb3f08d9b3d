-- ===== src/Routing/Candidates/Cooling.antt =====
-- When `allCoolingClassification` (internal/routing/execute.go) says that all accounts cool down, and
-- what time it promises.
use mathlib.Core.List.{Mem, mem-cons}
use mathlib.Core.Logic.Or
use native.Mathlib.Bridge.{le_prop}
use byos.Prelude.{
  ℕ, ◌+◌, ◌≤◌, ◌<◌, ◌≡◌, refl, sym, ◌∙◌, max, String, Option, none, some, List, [], ◌∷◌, All,
  All-mem, ◌-◌, ltb, ◌==◌, arith, Bool-cases, inl, inr, ◌⊎◌, ◌||◌, if◌then◌else◌,
}
use byos.Provider.{Kind, ErrorClassification}
use byos.Routing.Scheduler.{Candidate, eligible_of}
use byos.Routing.Candidates.Serving.{IsServing, mem-pool}
use byos.Routing.Candidates.{
  pool, available_at, earliest_of, cooling_until, cooling_eligible, all_cooling_classification,
}

-- `t` is when the first of the accounts is free again, and none is free yet.
pub record IsEarliest (model : String) (now t : ℕ) (cs : List Candidate) : Type 0 where
  pub cooling : All (λ a. now < available_at model a) cs
  pub bounds : All (λ a. t ≤ available_at model a) cs
  pub attained : (a : Candidate) × Mem a cs × (available_at model a ≡ t)

-- The same for the rest of the loop, where `e` is the earliest time so far.
record IsLeast (model : String) (now e t : ℕ) (cs : List Candidate) : Type 0 where
  below : t ≤ e
  cooling : All (λ a. now < available_at model a) cs
  bounds : All (λ a. t ≤ available_at model a) cs
  attained : (t ≡ e) ⊎ ((a : Candidate) × Mem a cs × (available_at model a ≡ t))

module _ (model : String) (now : ℕ) where
  least : Candidate → ℕ → ℕ
  least a e = if e == 0 || ltb (available_at model a) e then available_at model a else e

  earliest_of-cons :
      (e t : ℕ) (a : Candidate) (rest : List Candidate)
      → earliest_of model now e (a ∷ rest) ≡ some t
      → (now < available_at model a) × (earliest_of model now (least a e) rest ≡ some t)
  unfolding earliest_of least
  earliest_of-cons e t a rest h = elim (Bool-cases (ltb now (available_at model a))) [
    | inl later ↦ (ground arith, ground arith)
    | inr now_free ↦ absurd (ground arith)
  ]

  least-bounds :
      (e : ℕ) (a : Candidate)
      → 0 < e
      → (least a e ≤ e)
        × (least a e ≤ available_at model a)
        × ((least a e ≡ e) ⊎ (available_at model a ≡ least a e))
  unfolding least
  least-bounds e a p = elim (Bool-cases (ltb (available_at model a) e)) [
    | inl lower ↦ (ground arith, ground arith, inr (ground arith))
    | inr other ↦ (ground arith, ground arith, inl (ground arith))
  ]

  least-pos :
      (e : ℕ) (a : Candidate)
      → 0 < e
      → now < available_at model a
      → (least a e ≡ e) ⊎ (available_at model a ≡ least a e)
      → 0 < least a e
  least-pos e a p later (inl same) = omega (arith, same, p)
  least-pos e a p later (inr here) = omega (arith, here, later)

  Attains : ℕ → ℕ → List Candidate → Type 0
  Attains e t cs = (t ≡ e) ⊎ ((a : Candidate) × Mem a cs × (available_at model a ≡ t))

  attained-cons :
      (e t : ℕ) (a : Candidate) (rest : List Candidate)
      → (least a e ≡ e) ⊎ (available_at model a ≡ least a e)
      → Attains (least a e) t rest
      → Attains e t (a ∷ rest)
  unfolding Attains
  attained-cons e t a rest from (inr (b, m, q)) = inr (b, mem-cons.1 (Or.inr m), q)
  attained-cons e t a rest (inl same) (inl q) = inl (cc)
  attained-cons e t a rest (inr here) (inl q) = inr (a, mem-cons.1 (Or.inl refl), cc)

  earliest_of-IsLeast :
      (e t : ℕ) (cs : List Candidate)
      → 0 < e
      → earliest_of model now e cs ≡ some t
      → IsLeast model now e t cs
  unfolding earliest_of Attains
  earliest_of-IsLeast e t [] p h = record {
    below = ground arith;
    cooling = tt;
    bounds = tt;
    attained = inl (ground arith);
  }
  earliest_of-IsLeast e t (a ∷ rest) p h =
      let (later, h') = earliest_of-cons e t a rest h in
      let (low, low', from) = least-bounds e a p in
      let v : IsLeast model now (least a e) t rest =
        earliest_of-IsLeast (least a e) t rest (least-pos e a p later from) h' in
      record {
        below = omega (arith, v.below, low);
        cooling = (later, v.cooling);
        bounds = (omega (arith, v.below, low'), v.bounds);
        attained = attained-cons e t a rest from v.attained;
      }

  earliest_of-IsEarliest :
      (t : ℕ) (a : Candidate) (rest : List Candidate)
      → earliest_of model now 0 (a ∷ rest) ≡ some t
      → IsEarliest model now t (a ∷ rest)
  unfolding least
  earliest_of-IsEarliest t a rest h =
      let (later, h') = earliest_of-cons 0 t a rest h in
      let v : IsLeast model now (available_at model a) t rest =
        earliest_of-IsLeast (available_at model a) t rest (omega (arith, later)) h' in
      record {
        cooling = (later, v.cooling);
        bounds = (v.below, v.bounds);
        attained = here_or a rest v.attained;
      }
    where
      here_or :
          (a : Candidate) (rest : List Candidate)
          → (t ≡ available_at model a) ⊎ ((b : Candidate) × Mem b rest × (available_at model b ≡ t))
          → (b : Candidate) × Mem b (a ∷ rest) × (available_at model b ≡ t)
      here_or a rest (inl q) = (a, mem-cons.1 (Or.inl refl), cc)
      here_or a rest (inr (b, m, q)) = (b, mem-cons.1 (Or.inr m), q)

-- The same for what the classification tells the client, counted from `now`.
record Counted (model : String) (now : ℕ) (cs : List Candidate) (c : ErrorClassification)
    : Type 0 where
  pub earliest : IsEarliest model now c.retry_after cs
  pub lasts : now + c.cooldown ≡ c.retry_after
  pub status : c.public_status ≡ 429

from_earliest :
    (model : String) (now : ℕ) (c : ErrorClassification) (a : Candidate) (rest : List Candidate)
    (r : Option ℕ)
    → earliest_of model now 0 (a ∷ rest) ≡ r
    → cooling_until now r ≡ some c
    → Counted model now (a ∷ rest) c
unfolding cooling_until
from_earliest model now c a rest none e h = cc
from_earliest model now c a rest (some t) e h =
    let q : c.retry_after ≡ t = cc in
    let v : IsEarliest model now c.retry_after (a ∷ rest) =
      rw q (earliest_of-IsEarliest model now t a rest e) in
    let (b, m, free) = v.attained in
    let later : now < available_at model b =
      All-mem (λ x. now < available_at model x) (λ x. le_prop) (a ∷ rest) v.cooling m in
    let left : c.cooldown ≡ t - now = cc in
    record { earliest = v; lasts = omega (arith, left, later, free, q); status = cc }

from_eligible :
    (model : String) (now : ℕ) (c : ErrorClassification) (l : List Candidate)
    → cooling_eligible model now l ≡ some c
    → Counted model now l c
unfolding cooling_eligible
from_eligible model now c [] h = cc
from_eligible model now c (a ∷ rest) h =
    from_earliest model now c a rest (earliest_of model now 0 (a ∷ rest)) refl h

-- What the classification tells the client of the accounts that serve the model: the later of an
-- account's two cooldowns is over at `retry_after` for the first of them, and for none at `now`.
pub record Promises (cs : List Candidate) (kind : Kind) (model : String) (now : ℕ)
    (c : ErrorClassification) : Type 0 where
  pub cooling :
      (a : Candidate)
      → IsServing kind model cs a
      → now < max (a.cooldown_until model) (a.cooldown_until "*")
  pub bounds :
      (a : Candidate)
      → IsServing kind model cs a
      → c.retry_after ≤ max (a.cooldown_until model) (a.cooldown_until "*")
  pub attained :
      (a : Candidate) × IsServing kind model cs a
      × (max (a.cooldown_until model) (a.cooldown_until "*") ≡ c.retry_after)
  pub lasts : now + c.cooldown ≡ c.retry_after
  pub status : c.public_status ≡ 429

available_at_lem :
    (model : String) (a : Candidate)
    → available_at model a ≡ max (a.cooldown_until model) (a.cooldown_until "*")
available_at_lem model a = ground arith

-- Where `allCoolingClassification` answers with a classification, there is an account that serves the
-- model (it is of the provider, enabled, valid, and has the capability if its capabilities are known;
-- where such an account's capabilities are known, those whose are unknown do not count), each of them
-- has a cooldown, its own or that for the model, that ends after the present, `RetryAfter` is the first
-- time at which both cooldowns of one of them are over, `Cooldown` is the time left until then, and the
-- status is 429.
pub all_cooling-Promises :
    (cs : List Candidate) (kind : Kind) (model : String) (now : ℕ) (c : ErrorClassification)
    → all_cooling_classification cs kind model now ≡ some c
    → Promises cs kind model now c
unfolding all_cooling_classification
all_cooling-Promises cs kind model now c h =
    let counted : Counted model now (eligible_of (pool kind model cs)) c =
      from_eligible model now c (eligible_of (pool kind model cs)) h in
    let (b, m, free) = counted.earliest.attained in
    record {
      cooling = λ a serving.
          let later =
            All-mem (λ x. now < available_at model x) (λ x. le_prop)
              (eligible_of (pool kind model cs)) counted.earliest.cooling
              ((mem-pool kind model a cs).1 serving) in
          omega (arith, later, available_at_lem model a);
      bounds = λ a serving.
          let later =
            All-mem (λ x. c.retry_after ≤ available_at model x) (λ x. le_prop)
              (eligible_of (pool kind model cs)) counted.earliest.bounds
              ((mem-pool kind model a cs).1 serving) in
          omega (arith, later, available_at_lem model a);
      attained = (b, (mem-pool kind model b cs).0 m, sym (available_at_lem model b) ∙ free);
      lasts = counted.lasts;
      status = counted.status;
    }
