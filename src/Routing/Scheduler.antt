-- ===== src/Routing/Scheduler.antt =====
-- internal/routing/scheduler.go. A map is a total function (a missing key reads as Go's zero value),
-- a time is a number of nanoseconds with 0 for the zero time, and the cursors are uint64.
pub mod Rotation
pub mod Admission
pub mod Order
mod Tests
use Prim.Native.String
use byos.Provider.{Kind, is_valid_kind}
use byos.Prelude.{
  ℕ, zero, suc, ◌+◌, ◌%◌, ◌^◌, String, Bool, false, not, ◌&&◌, ◌||◌, Option, none, some, List, [],
  ◌∷◌, ◌++◌, length, get_elem?, update, ltb, ◌==◌, str_eq, if◌then◌else◌,
}

pub record Candidate : Type 0 where
  pub id : String
  pub provider : Kind
  pub enabled : Bool
  pub valid : Bool
  pub capabilities : String → Bool
  pub capabilities_known : Bool
  pub cooldown_until : String → ℕ

pub record Scheduler : Type 0 where
  pub cursors : String → ℕ

unfoldable pub new_scheduler : Scheduler
new_scheduler = record { cursors = λ _. 0 }

-- The guards of the first loop, in the order of its `continue` statements.
unfoldable pub is_excluded : Kind → String → ℕ → Candidate → Bool
is_excluded kind model now a =
    (is_valid_kind kind && not (str_eq a.provider kind))
    || (not (a.enabled && a.valid)
        || (ltb now (a.cooldown_until model) || ltb now (a.cooldown_until "*")))

pub record Split : Type 0 where
  pub known : List Candidate
  pub unknown : List Candidate

-- One round of the loop that fills `known` and `unknown`.
place : Kind → String → ℕ → Candidate → Split → Split
place kind model now a s =
    if is_excluded kind model now a
    then s
    else if a.capabilities_known
    then (if a.capabilities model then record s { known = a ∷ s.known } else s)
    else record s { unknown = a ∷ s.unknown }

-- The two slices in the order of the accounts.
unfoldable pub split : Kind → String → ℕ → List Candidate → Split
unfolding place is_excluded
split kind model now [] = record { known = []; unknown = [] }
split kind model now (a ∷ accounts) = place kind model now a (split kind model now accounts)

unfoldable pub eligible_of : Split → List Candidate
eligible_of s = if length s.known == 0 then s.unknown else s.known

unfoldable pub eligible : Kind → String → ℕ → List Candidate → List Candidate
unfolding split eligible_of
eligible kind model now accounts = eligible_of (split kind model now accounts)

-- The search for `preferredIndex`; `none` stands for -1.
unfoldable pub preferred_index : String → ℕ → List Candidate → Option ℕ
preferred_index preferred index [] = none
preferred_index preferred index (a ∷ rest) =
    if str_eq a.id preferred then some index else preferred_index preferred (suc index) rest

unfoldable pub cursor_key : Kind → String → String
cursor_key kind model =
    if is_valid_kind kind then String.◌++◌ kind (String.◌++◌ "\0" model) else model

is_at : Option ℕ → ℕ → Bool
is_at none index = false
is_at (some p) index = index == p

elem_at : Option Candidate → List Candidate → List Candidate
elem_at none rest = rest
elem_at (some a) rest = a ∷ rest

unfoldable pub append_round : List Candidate → Option ℕ → ℕ → List Candidate → List Candidate
unfolding is_at elem_at
append_round eligible skip index rest =
    if is_at skip index then rest else elem_at (get_elem? eligible index) rest

unfoldable pub pick : List Candidate → Option ℕ → List Candidate
unfolding elem_at
pick eligible none = []
pick eligible (some p) = elem_at (get_elem? eligible p) []

-- The loop over `offset`, with `rounds` offsets left; `skip` is the preferred index. An index out of
-- range, which Go would answer by a panic, appends nothing.
unfoldable pub rotation : List Candidate → ℕ → Option ℕ → ℕ → ℕ → List Candidate
rotation eligible cursor skip zero offset = []
rotation eligible cursor skip (suc rounds) offset =
    append_round eligible skip ((cursor + offset) % length eligible)
      (rotation eligible cursor skip rounds (suc offset))

abbrev pub uint64 : ℕ → ℕ
uint64 n = n % 2 ^ 64

-- The list once `eligible` is known, for a value of the cursor.
unfoldable pub arrange : List Candidate → Option ℕ → ℕ → List Candidate
unfolding rotation
arrange eligible preferred cursor =
    pick eligible preferred ++ rotation eligible cursor preferred (length eligible) 0

-- `order`: `none` is ErrNoAvailableAccounts.
order_eligible : String → List Candidate → String → Scheduler → Option (List Candidate) × Scheduler
unfolding arrange preferred_index
order_eligible key [] preferred s = (none, s)
order_eligible key (a ∷ rest) preferred s = (
  some (
      arrange (a ∷ rest) (preferred_index preferred 0 (a ∷ rest))
        (s.cursors key % length (a ∷ rest))),
  record s { cursors = update s.cursors key (uint64 (s.cursors key + 1)) },
)

unfoldable pub order :
    Kind → String → List Candidate → String → ℕ → Scheduler → Option (List Candidate) × Scheduler
unfolding eligible cursor_key order_eligible
order kind model accounts preferred now s =
    order_eligible (cursor_key kind model) (eligible kind model now accounts) preferred s
