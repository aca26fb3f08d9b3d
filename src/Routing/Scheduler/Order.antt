-- ===== src/Routing/Scheduler/Order.antt =====
-- What `order` (internal/routing/scheduler.go) returns, and how its cursors move.
use mathlib.Core.List.{Mem, mem-cons, mem-cons_self, not-mem-nil, Perm, head?}
use mathlib.Core.List.Perm
use mathlib.Core.Path.{subst}
use mathlib.Core.Logic.Or
use mathlib.Core.HLevel.{⊥_prop}
use native.Mathlib.Nat.{mod-lt, mod-eq_of_lt}
use byos.Provider.{Kind}
use byos.Prelude.{
  ℕ, zero, suc, ◌+◌, ◌%◌, ◌^◌, ◌<◌, ◌≡◌, ◌≢◌, refl, ap, ◌∙◌, ◌↔◌, mem_of_get_elem?, String, true,
  none, some, List, [], ◌∷◌, str_eq, str_eq_refl, eq_iff, length, get_elem?, get_elem?-total, arith,
  Bool-cases, Option-cases, inl, inr,
}
use byos.Routing.Scheduler.{
  Candidate, Scheduler, eligible, order, order_eligible, arrange, pick, rotation, append_round,
  preferred_index, cursor_key, uint64,
}
use byos.Routing.Scheduler.Rotation.{arrange-perm, preferred_index-found}
use byos.Routing.Scheduler.Admission.{IsAdmissible, Prefers, mem-eligible}

order_eligible-perm :
    (key : String) (e : List Candidate) (preferred : String) (s : Scheduler)
    (ordered : List Candidate)
    → (order_eligible key e preferred s).0 ≡ some ordered
    → Perm ordered e
unfolding order_eligible
order_eligible-perm key [] preferred s ordered h = cc
order_eligible-perm key (a ∷ rest) preferred s ordered h =
    subst (λ l. Perm l (a ∷ rest)) (cc)
      (arrange-perm (a ∷ rest) preferred (s.cursors key % suc (length rest)) (omega arith))

module _ (kind : Kind) (model : String) (accounts : List Candidate) (preferred : String) (now : ℕ)
    (s : Scheduler) where
  -- A list that `order` returns has the accounts that remain after its guards, each as often as it
  -- stands among them, in some order.
  pub order-perm :
      (ordered : List Candidate)
      → (order kind model accounts preferred now s).0 ≡ some ordered
      → Perm ordered (eligible kind model now accounts)
  unfolding order
  order-perm ordered h =
      order_eligible-perm (cursor_key kind model) (eligible kind model now accounts) preferred s
        ordered h

  -- In a list that `order` returns, an account stands if and only if it is among the accounts, is
  -- admissible (of the provider, if the provider is a known one; enabled, valid, with no cooldown of the
  -- model or of the whole account past the present, and with the model among its capabilities if these
  -- are known), and has known capabilities if any admissible account has.
  pub mem-order :
      (ordered : List Candidate)
      → (order kind model accounts preferred now s).0 ≡ some ordered
      → (a : Candidate)
      → Mem a ordered
        ↔ (Mem a accounts × IsAdmissible kind model now a × Prefers kind model now accounts a)
  mem-order ordered h a = (
    λ m. (mem-eligible kind model now a accounts).0 ((Perm.mem_iff (order-perm ordered h)).0 m),
    λ m. (Perm.mem_iff (order-perm ordered h)).1 ((mem-eligible kind model now a accounts).1 m),
  )

order_eligible-none :
    (key : String) (e : List Candidate) (preferred : String) (s : Scheduler)
    → (order_eligible key e preferred s).0 ≡ none
    → (e ≡ []) × ((order_eligible key e preferred s).1 ≡ s)
unfolding order_eligible
order_eligible-none key [] preferred s h = (refl, refl)
order_eligible-none key (a ∷ rest) preferred s h = cc

order_eligible-some :
    (key : String) (a : Candidate) (rest : List Candidate) (preferred : String) (s : Scheduler)
    → (order_eligible key (a ∷ rest) preferred s).0
      ≡ some (
          arrange
            (a ∷ rest)
            (preferred_index preferred 0 (a ∷ rest))
            (s.cursors key % suc (length rest)))
unfolding order_eligible
order_eligible-some key a rest preferred s = refl

-- The search for the preferred account fails only if nobody carries the ID.
preferred_index-none :
    (preferred : String) (i : ℕ) (e : List Candidate)
    → preferred_index preferred i e ≡ none
    → (a : Candidate) → Mem a e
    → a.id ≢ preferred
unfolding preferred_index
preferred_index-none preferred i [] h a m same = absurd (not-mem-nil m)
preferred_index-none preferred i (x ∷ e) h a m same = elim (Bool-cases (str_eq x.id preferred)) [
  | inl hit ↦ cc (rw hit at h)
  | inr miss ↦
      Or.elim ⊥_prop (mem-cons.0 m)
        (λ eq.
          let hit : str_eq x.id preferred ≡ true =
            subst (λ (y : Candidate). str_eq y.id preferred ≡ true) eq
              ((eq_iff a.id preferred).1 same) in
          absurd (cc))
        (λ t. preferred_index-none preferred (suc i) e (rw miss at h) a t same)
]

at_zero : (p k : ℕ) → p ≡ 0 + k → p ≡ k
at_zero p k h = omega arith

at_cursor : (c n : ℕ) → c < n → (c + 0) % n ≡ c
at_cursor c n h = ap (λ (m : ℕ). m % n) (omega arith) ∙ mod-eq_of_lt h

preferred_index-absent :
    (preferred : String) (e : List Candidate) (p : ℕ)
    → ((a : Candidate) → Mem a e → a.id ≢ preferred)
    → preferred_index preferred 0 e ≢ some p
preferred_index-absent preferred e p absent found =
    let (k, at, below, a, get, name) = preferred_index-found preferred 0 e p found in
    absent a (mem_of_get_elem? e k get) name

arrange-head_preferred :
    (e : List Candidate) (preferred : String) (p c : ℕ)
    → preferred_index preferred 0 e ≡ some p
    → (h : Candidate) × (t : List Candidate) × (arrange e (some p) c ≡ h ∷ t) × (h.id ≡ preferred)
unfolding arrange pick
arrange-head_preferred e preferred p c found =
    let (k, at, below, a, get, name) = preferred_index-found preferred 0 e p found in
    (a, rotation e c (some p) (length e) 0, rw (ap (get_elem? e) (at_zero p k at) ∙ get) refl, name)

arrange-head_cursor :
    (a : Candidate) (rest : List Candidate) (c : ℕ)
    → c < suc (length rest)
    → head? (arrange (a ∷ rest) none c) ≡ get_elem? (a ∷ rest) c
unfolding arrange pick append_round rotation
arrange-head_cursor a rest c h =
    let (x, get) = get_elem?-total (a ∷ rest) c h in
    let here : (c + 0) % suc (length rest) ≡ c = at_cursor c (suc (length rest)) h in
    rw (here, get) refl

-- With no account of the preferred ID the list begins at the cursor.
order_eligible-head :
    (key : String) (e : List Candidate) (preferred : String) (s : Scheduler)
    → 0 < length e
    → ((a : Candidate) → Mem a e → a.id ≢ preferred)
    → (ordered : List Candidate) × ((order_eligible key e preferred s).0 ≡ some ordered)
      × (head? ordered ≡ get_elem? e (s.cursors key % length e))
order_eligible-head key [] preferred s h absent = elim h [ ]
order_eligible-head key (a ∷ rest) preferred s h absent =
    elim (Option-cases (preferred_index preferred 0 (a ∷ rest))) [
      | inl e ↦ (
        arrange (a ∷ rest) none (s.cursors key % suc (length rest)),
        order_eligible-some key a rest preferred s
            ∙ ap (λ o. some (arrange (a ∷ rest) o (s.cursors key % suc (length rest)))) e,
        arrange-head_cursor a rest (s.cursors key % suc (length rest))
            (mod-lt (s.cursors key) (omega arith)),
      )
      | inr (p, e) ↦ absurd (preferred_index-absent preferred (a ∷ rest) p absent e)
    ]

order_eligible-cursor :
    (key : String) (e : List Candidate) (preferred : String) (s : Scheduler)
    → 0 < length e
    → (order_eligible key e preferred s).1.cursors key ≡ uint64 (s.cursors key + 1)
unfolding order_eligible
order_eligible-cursor key [] preferred s h = elim h [ ]
order_eligible-cursor key (a ∷ rest) preferred s h = rw (str_eq_refl key) refl

-- The cursors of other keys stay where they are.
order_eligible-other :
    (key other : String) (e : List Candidate) (preferred : String) (s : Scheduler)
    → other ≢ key
    → (order_eligible key e preferred s).1.cursors other ≡ s.cursors other
unfolding order_eligible
order_eligible-other key other [] preferred s h = refl
order_eligible-other key other (a ∷ rest) preferred s h = elim (Bool-cases (str_eq other key)) [
  | inl hit ↦ absurd (h ((eq_iff other key).0 hit))
  | inr miss ↦ rw miss refl
]

order_eligible-empty :
    (key : String) (e : List Candidate) (preferred : String) (s : Scheduler)
    → ((a : Candidate) → Mem a e → ⊥)
    → (order_eligible key e preferred s).0 ≡ none
unfolding order_eligible
order_eligible-empty key [] preferred s nobody = refl
order_eligible-empty key (a ∷ rest) preferred s nobody = absurd (nobody a mem-cons_self)

order_eligible-preferred :
    (key : String) (e : List Candidate) (preferred : String) (s : Scheduler) (a : Candidate)
    → Mem a e
    → a.id ≡ preferred
    → (h : Candidate) × (t : List Candidate) × ((order_eligible key e preferred s).0 ≡ some (h ∷ t))
      × (h.id ≡ preferred)
order_eligible-preferred key [] preferred s a m same = absurd (not-mem-nil m)
order_eligible-preferred key (x ∷ rest) preferred s a m same =
    elim (Option-cases (preferred_index preferred 0 (x ∷ rest))) [
      | inl e ↦ absurd (preferred_index-none preferred 0 (x ∷ rest) e a m same)
      | inr (p, e) ↦
          let (h, t, arranged, name) =
            arrange-head_preferred (x ∷ rest) preferred p (s.cursors key % suc (length rest)) e in
          (
            h,
            t,
            order_eligible-some key x rest preferred s
                ∙ ap some (
                    ap (λ o. arrange (x ∷ rest) o (s.cursors key % suc (length rest))) e
                    ∙ arranged),
            name,
          )
    ]

module _ (kind : Kind) (model : String) (accounts : List Candidate) (preferred : String)
    (now : ℕ) where
  -- `order` reports that no account is available if and only if none of the accounts is admissible.
  pub order-none :
      (s : Scheduler)
      → ((order kind model accounts preferred now s).0 ≡ none)
        ↔ ((a : Candidate) → Mem a accounts → ¬ IsAdmissible kind model now a)
  unfolding order
  order-none s = (
    λ h a m adm. not-mem-nil (subst (Mem a) (empty h) (offered h a m adm)),
    λ nobody. none_of (eligible kind model now accounts) (λ a m.
        let (here, adm, _) = (mem-eligible kind model now a accounts).0 m in nobody a here adm),
  )
    where
      empty :
          (order kind model accounts preferred now s).0 ≡ none
          → eligible kind model now accounts ≡ []
      empty h =
          (order_eligible-none (cursor_key kind model) (eligible kind model now accounts) preferred
            s h).0

      offered :
          (order kind model accounts preferred now s).0 ≡ none
          → (a : Candidate) → Mem a accounts
          → IsAdmissible kind model now a
          → Mem a (eligible kind model now accounts)
      offered h a m adm = (mem-eligible kind model now a accounts).1 (
        m,
        adm,
        λ b mb adm_b k. absurd (
            not-mem-nil (
              subst (Mem b) (empty h)
                ((mem-eligible kind model now b accounts).1 (mb, adm_b, λ _ _ _ _. k)))),
      )

      none_of :
          (e : List Candidate)
          → ((a : Candidate) → Mem a e → ⊥)
          → (order_eligible (cursor_key kind model) e preferred s).0 ≡ none
      none_of e nobody = order_eligible-empty (cursor_key kind model) e preferred s nobody

  -- Where `order` reports that no account is available, no cursor has moved.
  pub order-none_unchanged :
      (s : Scheduler)
      → (order kind model accounts preferred now s).0 ≡ none
      → (order kind model accounts preferred now s).1 ≡ s
  unfolding order
  order-none_unchanged s h =
      (order_eligible-none (cursor_key kind model) (eligible kind model now accounts) preferred s
        h).1

  -- `k` calls, one after another.
  pub calls : ℕ → Scheduler → Scheduler
  calls zero s = s
  calls (suc k) s = calls k (order kind model accounts preferred now s).1

  calls-cursor :
      (k : ℕ) (s : Scheduler)
      → 0 < length (eligible kind model now accounts)
      → s.cursors (cursor_key kind model) + k < 2 ^ 64
      → (calls k s).cursors (cursor_key kind model) ≡ s.cursors (cursor_key kind model) + k
  unfolding calls order
  calls-cursor zero s h b = omega arith
  calls-cursor (suc k) s h b =
      calls-cursor k (order kind model accounts preferred now s).1 h (rw step (omega arith))
      ∙ ap (λ (c : ℕ). c + k) step
      ∙ omega arith
    where
      step :
          (order kind model accounts preferred now s).1.cursors (cursor_key kind model)
          ≡ s.cursors (cursor_key kind model) + 1
      step =
          order_eligible-cursor (cursor_key kind model) (eligible kind model now accounts) preferred
            s h
          ∙ mod-eq_of_lt (omega arith)

  -- Round robin: if some account remains after the guards, nobody carries the preferred ID, and the
  -- cursor does not reach 2^64 in `k` calls, then the call after `k` like ones returns a list that begins
  -- with the remaining account at the cursor's first value plus `k`, modulo their number.
  pub order-round_robin :
      (k : ℕ) (s : Scheduler)
      → 0 < length (eligible kind model now accounts)
      → s.cursors (cursor_key kind model) + k < 2 ^ 64
      → ((a : Candidate) → Mem a accounts → a.id ≢ preferred)
      → (ordered : List Candidate) × ((order kind model accounts preferred now (calls k s)).0
          ≡ some ordered)
        × (head? ordered
            ≡ get_elem? (eligible kind model now accounts) (
                (s.cursors (cursor_key kind model) + k)
                % length (eligible kind model now accounts)))
  unfolding order
  order-round_robin k s h b absent =
      let (ordered, out, head) =
        order_eligible-head (cursor_key kind model) (eligible kind model now accounts) preferred
          (calls k s) h (λ a m. absent a ((mem-eligible kind model now a accounts).0 m).0) in
      (
        ordered,
        out,
        head
            ∙ ap
                (λ (c : ℕ).
                  get_elem? (eligible kind model now accounts)
                    (c % length (eligible kind model now accounts)))
                (calls-cursor k s h b),
      )

  -- If an account with the preferred ID remains after the guards, the list that `order` returns begins
  -- with an account of that ID.
  pub order-preferred :
      (s : Scheduler) (a : Candidate)
      → Mem a (eligible kind model now accounts)
      → a.id ≡ preferred
      → (h : Candidate) × (t : List Candidate) × ((order kind model accounts preferred now s).0
          ≡ some (h ∷ t))
        × (h.id ≡ preferred)
  unfolding order
  order-preferred s a m same =
      order_eligible-preferred (cursor_key kind model) (eligible kind model now accounts) preferred
        s a m same
