-- ===== src/Prelude/Members.antt =====
-- Membership in a list that keeps or skips the elements of another one.
use mathlib.Core.Path.{◌≡◌, subst, sym}
use mathlib.Core.Logic.{◌↔◌}
use mathlib.Core.Logic.Or
use Prim.Native.Nat.{ℕ, zero, suc}
use mathlib.Core.Option.{some}
use byos.Prelude.Lists.{get_elem?, All}
use mathlib.Core.HLevel.{×_prop}
use mathlib.Core.List.{List, [], ◌∷◌, Mem, not-mem-nil, mem-cons, Mem-prop}

module _ {ℓ κ} {A : Type ℓ} (P : A → Type κ) (pp : (x : A) → IsProp (P x)) {a b : A}
    {kept rest : List A} where
  pub mem-keep :
      P b → (Mem a kept ↔ (Mem a rest × P a)) → (Mem a (b ∷ kept) ↔ (Mem a (b ∷ rest) × P a))
  mem-keep pb ih = (
    λ m.
        Or.elim (×_prop Mem-prop (pp a)) (mem-cons.0 m)
          (λ e. (mem-cons.1 (Or.inl e), subst P (sym e) pb))
          (λ t. (mem-cons.1 (Or.inr (ih.0 t).0), (ih.0 t).1)),
    λ h.
        Or.elim Mem-prop (mem-cons.0 h.0) (λ e. mem-cons.1 (Or.inl e))
          (λ t. mem-cons.1 (Or.inr (ih.1 (t, h.1)))),
  )

  pub mem-skip :
      (P b → ⊥) → (Mem a kept ↔ (Mem a rest × P a)) → (Mem a kept ↔ (Mem a (b ∷ rest) × P a))
  mem-skip no_b ih = (
    λ m. (mem-cons.1 (Or.inr (ih.0 m).0), (ih.0 m).1),
    λ h.
        Or.elim Mem-prop (mem-cons.0 h.0) (λ e. absurd (no_b (subst P e h.1))) (λ t. ih.1 (t, h.1)),
  )

module _ {ℓ} {A : Type ℓ} where
  pub mem_of_get_elem? : (xs : List A) (i : ℕ) {a : A} → get_elem? xs i ≡ some a → Mem a xs
  mem_of_get_elem? [] i h = cc
  mem_of_get_elem? (x ∷ xs) zero h = mem-cons.1 (Or.inl (cc))
  mem_of_get_elem? (x ∷ xs) (suc i) h = mem-cons.1 (Or.inr (mem_of_get_elem? xs i h))

  pub All-mem {κ} :
      (P : A → Type κ)
      → ((x : A) → IsProp (P x))
      → (xs : List A) {a : A} → All P xs
      → Mem a xs
      → P a
  All-mem P pp [] h m = absurd (not-mem-nil m)
  All-mem P pp (x ∷ xs) {a} h m =
      Or.elim (pp a) (mem-cons.0 m) (λ e. subst P (sym e) h.0) (λ t. All-mem P pp xs h.1 t)
