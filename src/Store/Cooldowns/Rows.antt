-- ===== src/Store/Cooldowns/Rows.antt =====
-- Rows of account_model_states and the statements that find, change and upsert one by its key.
use mathlib.Core.Path.{subst}
use byos.Prelude.{
  ℕ, ◌≡◌, refl, String, Bool, true, false, Option, none, some, List, [], ◌∷◌, str_eq, eq_iff,
  if◌then◌else◌, ◌&&◌, arith, Bool-cases, inl, inr,
}

-- A NULL error class is "", as COALESCE and `nullString` make it.
pub record State : Type 0 where
  pub account_id : String
  pub model : String
  pub cooldown_until : Option ℕ
  pub backoff_level : ℕ
  pub last_error_class : String
  pub last_error_at : Option ℕ

abbrev pub is_row : String → String → State → Bool
is_row account_id model r = str_eq r.account_id account_id && str_eq r.model model

-- `WHERE account_id=? AND model=?`.
unfoldable pub find_row : String → String → List State → Option State
find_row a m [] = none
find_row a m (r ∷ rows) = if is_row a m r then some r else find_row a m rows

unfoldable pub update_row : String → String → (State → State) → List State → List State
update_row a m f [] = []
update_row a m f (r ∷ rows) = if is_row a m r then f r ∷ rows else r ∷ update_row a m f rows

-- `INSERT … ON CONFLICT(account_id,model) DO UPDATE`.
unfoldable pub upsert : String → String → State → (State → State) → List State → List State
upsert a m new f [] = new ∷ []
upsert a m new f (r ∷ rows) = if is_row a m r then f r ∷ rows else r ∷ upsert a m new f rows

pub find_row-key :
    (a m : String) (rows : List State) {r : State}
    → find_row a m rows ≡ some r
    → (r.account_id ≡ a) × (r.model ≡ m)
unfolding find_row
find_row-key a m [] h = absurd (cc)
find_row-key a m (x ∷ rows) {r} h = elim (Bool-cases (is_row a m x)) [
  | inl hit ↦
      let same : x ≡ r = ground arith in
      ground
        (arith, eq_iff r.account_id a, eq_iff r.model m, subst (λ y. is_row a m y ≡ true) same hit)
  | inr miss ↦ find_row-key a m rows (rw miss at h)
]

abbrev pub updated : (State → State) → Option State → Option State
updated f none = none
updated f (some r) = some (f r)

abbrev pub upserted : State → (State → State) → Option State → State
upserted new f none = new
upserted new f (some r) = f r

-- The update leaves the key as it is.
abbrev pub KeepsKey : (State → State) → Type 0
KeepsKey f = (a m : String) (r : State) → is_row a m (f r) ≡ is_row a m r

module _ (a m : String) (f : State → State) (keeps : KeepsKey f) where
  pub find_row-update_row :
      (rows : List State) → find_row a m (update_row a m f rows) ≡ updated f (find_row a m rows)
  unfolding find_row update_row
  find_row-update_row [] = refl
  find_row-update_row (r ∷ rows) = ground (arith, keeps a m r, find_row-update_row rows)

  pub find_row-upsert :
      (new : State)
      → is_row a m new ≡ true
      → (rows : List State)
      → find_row a m (upsert a m new f rows) ≡ some (upserted new f (find_row a m rows))
  unfolding find_row upsert
  find_row-upsert new h [] = ground arith
  find_row-upsert new h (r ∷ rows) = ground (arith, keeps a m r, find_row-upsert new h rows)

-- A statement for one key leaves the rows of the others alone.
module _ (a m b n : String) (differs : (str_eq a b && str_eq m n) ≡ false) where
  other-row : (r : State) → is_row a m r ≡ true → is_row b n r ≡ false
  other-row r h = ground (arith, eq_iff r.account_id a, eq_iff r.model m)

  pub find_row-update_row_other :
      (f : State → State) (keeps : KeepsKey f) (rows : List State)
      → find_row b n (update_row a m f rows) ≡ find_row b n rows
  unfolding find_row update_row
  find_row-update_row_other f keeps [] = refl
  find_row-update_row_other f keeps (r ∷ rows) =
      ground (arith, keeps b n r, other-row r, find_row-update_row_other f keeps rows)

  pub find_row-upsert_other :
      (f : State → State) (keeps : KeepsKey f) (new : State)
      → is_row a m new ≡ true
      → (rows : List State) → find_row b n (upsert a m new f rows) ≡ find_row b n rows
  unfolding find_row upsert
  find_row-upsert_other f keeps new h [] = ground (arith, other-row new)
  find_row-upsert_other f keeps new h (r ∷ rows) =
      ground (arith, keeps b n r, other-row r, find_row-upsert_other f keeps new h rows)
