-- ===== src/Routing/Scheduler/Tests.antt =====
-- The accounts of internal/routing/scheduler_test.go.
use mathlib.Core.List.{Mem, mem-cons, mem-cons_self, head?}
use mathlib.Core.Logic.Or
use mathlib.Core.HLevel.{¬_prop}
use byos.Prelude.{
  ◌+◌, ◌%◌, ◌≡◌, refl, ◌↔◌, String, true, false, none, some, List, [], ◌∷◌, length, get_elem?,
  arith, update, All, All-mem, str_ne, ◌≢◌,
}
use byos.Routing.Scheduler.{
  Candidate, new_scheduler, is_excluded, split, eligible, order, cursor_key, append_round, pick,
}
use byos.Routing.Scheduler.Admission.{IsAdmissible, Prefers}
use byos.Routing.Scheduler.Order.{mem-order, order-round_robin, order-preferred, calls}

abbrev known : String → Candidate
known id = record {
  id = id;
  provider = "xai";
  enabled = true;
  valid = true;
  capabilities = update (λ _. false) "grok-4.5" true;
  capabilities_known = true;
  cooldown_until = λ _. 0;
}

abbrev unknown : Candidate
unknown = record (known "unknown") { capabilities = λ _. false; capabilities_known = false }

abbrev cooling : Candidate
cooling = record (known "cool") { cooldown_until = update (λ _. 0) "grok-4.5" 200 }

abbrev accounts : List Candidate
accounts = known "a" ∷ known "b" ∷ unknown ∷ cooling ∷ []

eligible_accounts : eligible "xai" "grok-4.5" 100 accounts ≡ known "a" ∷ known "b" ∷ []
unfolding eligible split is_excluded
eligible_accounts = refl

round_robin :
    (order "xai" "grok-4.5" accounts "" 100 new_scheduler).0 ≡ some (known "a" ∷ known "b" ∷ [])
unfolding order new_scheduler pick append_round
round_robin = refl

mem-order_example : Mem (known "a") (known "a" ∷ known "b" ∷ []) ↔ (
    Mem (known "a") accounts
    × IsAdmissible "xai" "grok-4.5" 100 (known "a")
    × Prefers "xai" "grok-4.5" 100 accounts (known "a"))
mem-order_example =
    mem-order "xai" "grok-4.5" accounts "" 100 new_scheduler (known "a" ∷ known "b" ∷ [])
      round_robin (known "a")

none_cooling : (order "xai" "grok-4.5" (cooling ∷ []) "" 100 new_scheduler).0 ≡ none
unfolding order new_scheduler
none_cooling = refl

all_named : All (λ (c : Candidate). c.id ≢ "") accounts
all_named =
    ground (
      arith,
      str_ne "a" "" refl,
      str_ne "b" "" refl,
      str_ne "unknown" "" refl,
      str_ne "cool" "" refl,
    )

nobody_unnamed : (a : Candidate) → Mem a accounts → a.id ≡ "" → ⊥
nobody_unnamed a m e = All-mem (λ (c : Candidate). c.id ≢ "") (λ _. ¬_prop) accounts all_named m e

order-round_robin_example :
    (ordered : List Candidate) × ((order "xai" "grok-4.5" accounts "" 100
        (calls "xai" "grok-4.5" accounts "" 100 3 new_scheduler)).0
      ≡ some ordered)
    × (head? ordered
        ≡ get_elem? (eligible "xai" "grok-4.5" 100 accounts) (
            (new_scheduler.cursors (cursor_key "xai" "grok-4.5") + 3)
            % length (eligible "xai" "grok-4.5" 100 accounts)))
unfolding eligible new_scheduler
order-round_robin_example =
    order-round_robin "xai" "grok-4.5" accounts "" 100 3 new_scheduler (omega arith) (omega arith)
      nobody_unnamed

order-preferred_example :
    (h : Candidate) × (t : List Candidate) × ((order "xai" "grok-4.5" accounts "b" 100
        new_scheduler).0
      ≡ some (h ∷ t))
    × (h.id ≡ "b")
unfolding eligible
order-preferred_example =
    order-preferred "xai" "grok-4.5" accounts "b" 100 new_scheduler (known "b")
      (mem-cons.1 (Or.inr mem-cons_self)) refl
