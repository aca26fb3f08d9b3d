-- ===== src/Routing/Scheduler/Rotation.antt =====
-- The rotation loop of `order` (internal/routing/scheduler.go): no account is lost or tried twice.
use mathlib.Core.List.{Perm, perm_middle, perm_append_comm}
use mathlib.Core.List.Perm
use mathlib.Core.Path.{ap₂}
use native.Mathlib.Nat.{mod-eq_of_lt, suc-add}
use byos.Prelude.{
  ℕ, zero, suc, ◌+◌, ◌-◌, ◌%◌, ◌≤◌, ◌<◌, ◌≡◌, refl, sym, ap, ◌∙◌, String, Option, none, some, List,
  [], ◌∷◌, ◌++◌, length, get_elem?, str_eq, arith, Bool-cases, inl, inr, eq_iff,
}
use byos.Routing.Scheduler.{
  Candidate, rotation, append_round, pick, arrange, elem_at, preferred_index,
}

-- The loop without the remainder: `rounds` elements from `index` on.
collect : List Candidate → Option ℕ → ℕ → ℕ → List Candidate
collect e skip zero index = []
collect e skip (suc rounds) index = append_round e skip index (collect e skip rounds (suc index))

wrap : (m i n : ℕ) → m ≡ n + i → i < n → m % n ≡ i
wrap m i n p h = grind arith

rotation-before :
    (e : List Candidate) (c : ℕ) (skip : Option ℕ) (k o : ℕ)
    → c + o + k ≤ length e
    → rotation e c skip k o ≡ collect e skip k (c + o)
unfolding rotation collect
rotation-before e c skip zero o h = refl
rotation-before e c skip (suc k) o h =
    ap₂ (append_round e skip) (mod-eq_of_lt (omega arith))
      (rotation-before e c skip k (suc o) (omega arith) ∙ ap (collect e skip k) (omega arith))

rotation-after :
    (e : List Candidate) (c : ℕ) (skip : Option ℕ) (k o i : ℕ)
    → c + o ≡ length e + i
    → i + k ≤ length e
    → rotation e c skip k o ≡ collect e skip k i
unfolding rotation collect
rotation-after e c skip zero o i p h = refl
rotation-after e c skip (suc k) o i p h =
    ap₂ (append_round e skip) (wrap (c + o) i (length e) p (omega arith))
      (rotation-after e c skip k (suc o) (suc i) (omega arith) (omega arith))

append_round-append :
    (e : List Candidate) (skip : Option ℕ) (i : ℕ) (xs ys : List Candidate)
    → append_round e skip i (xs ++ ys) ≡ append_round e skip i xs ++ ys
unfolding append_round
append_round-append e skip i xs ys = ground arith

rotation-split :
    (e : List Candidate) (c : ℕ) (skip : Option ℕ) (a b o : ℕ)
    → rotation e c skip (a + b) o ≡ rotation e c skip a o ++ rotation e c skip b (a + o)
unfolding rotation
rotation-split e c skip zero b o = ap₂ (rotation e c skip) (omega arith) (omega arith)
rotation-split e c skip (suc a) b o =
    ap (λ (k : ℕ). rotation e c skip k o) (suc-add a b)
    ∙ ap (append_round e skip ((c + o) % length e)) (
        rotation-split e c skip a b (suc o)
        ∙ ap (λ (k : ℕ). rotation e c skip a (suc o) ++ rotation e c skip b k) (omega arith))
    ∙ append_round-append e skip ((c + o) % length e) (rotation e c skip a (suc o)) _

collect-split :
    (e : List Candidate) (skip : Option ℕ) (a b i : ℕ)
    → collect e skip (a + b) i ≡ collect e skip a i ++ collect e skip b (a + i)
unfolding collect
collect-split e skip zero b i = ap₂ (collect e skip) (omega arith) (omega arith)
collect-split e skip (suc a) b i =
    ap (λ (k : ℕ). collect e skip k i) (suc-add a b)
    ∙ ap (append_round e skip i) (
        collect-split e skip a b (suc i)
        ∙ ap (λ (k : ℕ). collect e skip a (suc i) ++ collect e skip b k) (omega arith))
    ∙ append_round-append e skip i (collect e skip a (suc i)) _

-- The loop visits the indices from the cursor on, then those before it.
rotation_lem :
    (e : List Candidate) (c : ℕ) (skip : Option ℕ)
    → c ≤ length e
    → rotation e c skip (length e) 0 ≡ collect e skip (length e - c) c ++ collect e skip c 0
rotation_lem e c skip h =
    ap (λ (k : ℕ). rotation e c skip k 0) (omega arith)
    ∙ rotation-split e c skip (length e - c) c 0
    ∙ ap₂ ◌++◌
        (rotation-before e c skip (length e - c) 0 (omega arith)
          ∙ ap (collect e skip (length e - c)) (omega arith))
        (rotation-after e c skip c (length e - c + 0) 0 (omega arith) (omega arith))

rotation-perm :
    (e : List Candidate) (c : ℕ) (skip : Option ℕ)
    → c ≤ length e
    → Perm (rotation e c skip (length e) 0) (collect e skip (length e) 0)
rotation-perm e c skip h = rw (rotation_lem e c skip h) (
    Perm.trans (perm_append_comm (collect e skip (length e - c) c) (collect e skip c 0))
      (rw (sym whole) (Perm.refl _)))
  where
    whole : collect e skip (length e) 0 ≡ collect e skip c 0 ++ collect e skip (length e - c) c
    whole =
        ap (λ (k : ℕ). collect e skip k 0) (omega arith)
        ∙ collect-split e skip c (length e - c) 0
        ∙ ap (λ (k : ℕ). collect e skip c 0 ++ collect e skip (length e - c) k) (omega arith)

collect-shift :
    (x : Candidate) (e : List Candidate) (k i : ℕ)
    → collect (x ∷ e) none k (suc i) ≡ collect e none k i
unfolding collect append_round
collect-shift x e zero i = refl
collect-shift x e (suc k) i = ap (elem_at (get_elem? e i)) (collect-shift x e k (suc i))

collect-shift_head :
    (x : Candidate) (e : List Candidate) (k i : ℕ)
    → collect (x ∷ e) (some 0) k (suc i) ≡ collect e none k i
unfolding collect append_round
collect-shift_head x e zero i = refl
collect-shift_head x e (suc k) i = ground (arith, collect-shift_head x e k (suc i))

collect-shift_some :
    (x : Candidate) (e : List Candidate) (p k i : ℕ)
    → collect (x ∷ e) (some (suc p)) k (suc i) ≡ collect e (some p) k i
unfolding collect append_round
collect-shift_some x e p zero i = refl
collect-shift_some x e p (suc k) i = ground (arith, collect-shift_some x e p k (suc i))

collect-all : (e : List Candidate) → collect e none (length e) 0 ≡ e
unfolding collect append_round
collect-all [] = refl
collect-all (x ∷ e) = ap (◌∷◌ x) (collect-shift x e (length e) 0 ∙ collect-all e)

append_round-head :
    (x : Candidate) (e : List Candidate) (p : ℕ) (rest : List Candidate)
    → append_round (x ∷ e) (some (suc p)) 0 rest ≡ x ∷ rest
unfolding append_round
append_round-head x e p rest = ground arith

append_round-skip :
    (x : Candidate) (e rest : List Candidate) → append_round (x ∷ e) (some 0) 0 rest ≡ rest
unfolding append_round
append_round-skip x e rest = refl

collect-rest :
    (e : List Candidate) (p : ℕ)
    → p < length e
    → Perm (pick e (some p) ++ collect e (some p) (length e) 0) e
unfolding collect pick
collect-rest [] p h = elim h [ ]
collect-rest (x ∷ e) zero h =
    rw (append_round-skip x e _, collect-shift_head x e (length e) 0)
      (rw (collect-all e) (Perm.refl _))
collect-rest (x ∷ e) (suc p) h =
    rw (append_round-head x e p _, collect-shift_some x e p (length e) 0)
      (Perm.trans (perm_middle (elem_at (get_elem? e p) []) _)
        (Perm.cons x (collect-rest e p (omega arith))))

-- The preferred index stands in the slice, at an account that carries the preferred ID.
pub preferred_index-found :
    (preferred : String) (i : ℕ) (e : List Candidate) (p : ℕ)
    → preferred_index preferred i e ≡ some p
    → (k : ℕ) × (p ≡ i + k)
      × (k < length e)
      × (a : Candidate) × (get_elem? e k ≡ some a)
      × (a.id ≡ preferred)
unfolding preferred_index
preferred_index-found preferred i [] p h = cc
preferred_index-found preferred i (x ∷ e) p h = elim (Bool-cases (str_eq x.id preferred)) [
  | inl hit ↦ (0, ground arith, omega arith, x, refl, (eq_iff _ _).0 hit)
  | inr miss ↦
      let (k, at, below, a, get, name) =
        preferred_index-found preferred (suc i) e p (rw miss at h) in
      (suc k, omega arith, omega arith, a, get, name)
]

arrange-perm_index :
    (e : List Candidate) (skip : Option ℕ) (c : ℕ)
    → c ≤ length e
    → ((p : ℕ) → skip ≡ some p → p < length e)
    → Perm (arrange e skip c) e
unfolding arrange
arrange-perm_index e none c h k =
    unfold pick in Perm.trans (rotation-perm e c none h) (rw (collect-all e) (Perm.refl _))
arrange-perm_index e (some p) c h k =
    Perm.trans (Perm.append_left (pick e (some p)) (rotation-perm e c (some p) h))
      (collect-rest e p (k p refl))

-- The order in which accounts are tried has every eligible account, once.
pub arrange-perm :
    (e : List Candidate) (preferred : String) (c : ℕ)
    → c ≤ length e
    → Perm (arrange e (preferred_index preferred 0 e) c) e
arrange-perm e preferred c h = arrange-perm_index e (preferred_index preferred 0 e) c h (λ p found.
    let (k, at, below, a, get, name) = preferred_index-found preferred 0 e p found in omega arith)
