-- ===== src/Store/Cooldowns/Invariant.antt =====
-- What every statement of internal/store/cooldowns.go keeps, and the clean-up of expired rows.
use byos.Prelude.{
  ℕ, zero, suc, ◌≤◌, ◌<◌, ◌≡◌, refl, String, Bool, true, false, List, [], ◌∷◌, str_eq,
  if◌then◌else◌, ◌&&◌, arith, All, Bool-cases, inl, inr, str_eq_refl,
}
use byos.Time.{unix}
use byos.Store.Cooldowns.Rows.{
  State, is_row, find_row, update_row, upsert, find_row-update_row_other, find_row-upsert_other,
}
use byos.Store.Cooldowns.{
  Cooldown, put, write, get, ready, write_ready, advance_rate_limit, write_rate_limit, advance_row,
  promote, promote_expired, is_expired, expire_if_due, cleanup_batch_size,
}
use byos.Store.Cooldowns.Backoff.{expire_if_due-KeepsKey, advance_row-KeepsKey}

-- A statement of the repository.
pub data Call : Type 0 where
  puts : Cooldown → Call
  gets readies : String → String → ℕ → Call
  advances : String → String → String → ℕ → Call
  promotes : ℕ → Call

unfoldable pub step : (String → Bool) → Call → List State → List State
step is_account (puts value) rows = (put is_account value rows).1
step is_account (gets a m now) rows = (get a m now rows).1
step is_account (readies a m now) rows = (ready is_account a m rows).1
step is_account (advances a m error_class now) rows =
    (advance_rate_limit is_account a m error_class now rows).1
step is_account (promotes now) rows = (promote_expired now rows).1

-- Each statement comes with the accounts that there are when it runs.
unfoldable pub run : List ((String → Bool) × Call) → List State → List State
run [] rows = rows
run (c ∷ calls) rows = run calls (step c.0 c.1 rows)

abbrev pub IsCapped : List State → Type 0
IsCapped rows = All (λ (r : State). r.backoff_level ≤ 6) rows

-- The levels that callers write are in range.
abbrev pub InRange : Call → Type 0
InRange (puts value) = value.backoff_level ≤ 6
InRange _ = Unit {0}

update_row-IsCapped :
    (a m : String) (f : State → State)
    → ((r : State) → r.backoff_level ≤ 6 → (f r).backoff_level ≤ 6)
    → (rows : List State) → IsCapped rows
    → IsCapped (update_row a m f rows)
unfolding update_row
update_row-IsCapped a m f keep [] h = h
update_row-IsCapped a m f keep (r ∷ rows) h = elim (Bool-cases (is_row a m r)) [
  | inl hit ↦ rw hit (keep r h.0, h.1)
  | inr miss ↦ rw miss (h.0, update_row-IsCapped a m f keep rows h.1)
]

upsert-IsCapped :
    (a m : String) (new : State) (f : State → State)
    → new.backoff_level ≤ 6
    → ((r : State) → r.backoff_level ≤ 6 → (f r).backoff_level ≤ 6)
    → (rows : List State) → IsCapped rows
    → IsCapped (upsert a m new f rows)
unfolding upsert
upsert-IsCapped a m new f fresh keep [] h = (fresh, tt)
upsert-IsCapped a m new f fresh keep (r ∷ rows) h = elim (Bool-cases (is_row a m r)) [
  | inl hit ↦ rw hit (keep r h.0, h.1)
  | inr miss ↦ rw miss (h.0, upsert-IsCapped a m new f fresh keep rows h.1)
]

promote-IsCapped :
    (limit now : ℕ) (rows : List State) → IsCapped rows → IsCapped (promote limit now rows).1
unfolding promote
promote-IsCapped limit now [] h = h
promote-IsCapped zero now (r ∷ rows) h = h
promote-IsCapped (suc limit) now (r ∷ rows) h =
    elim (Bool-cases (is_expired r.cooldown_until now)) [
      | inl hit ↦ rw hit (ground arith, promote-IsCapped limit now rows h.1)
      | inr miss ↦ rw miss (h.0, promote-IsCapped (suc limit) now rows h.1)
    ]

-- A statement that the foreign key refuses leaves the rows.
guarded :
    {A : Type 0} (P : List State → Type 0) (b : Bool) (x y : A) (after before : List State)
    → P after
    → P before
    → (let r : A × List State = if b then (x, after) else (y, before) in P r.1)
guarded P true x y after before h k = h
guarded P false x y after before h k = k

step-IsCapped :
    (is_account : String → Bool) (c : Call) (rows : List State)
    → InRange c
    → IsCapped rows
    → IsCapped (step is_account c rows)
unfolding step put get ready advance_rate_limit write write_ready write_rate_limit promote_expired
    advance_row
step-IsCapped is_account (puts value) rows r h =
    guarded IsCapped (is_account value.account_id) _ _ (write value rows) rows
      (upsert-IsCapped _ _ _ _ r (λ _ _. r) rows h) h
step-IsCapped is_account (gets a m now) rows r h =
    update_row-IsCapped a m (expire_if_due (unix now)) (λ r b. ground arith) rows h
step-IsCapped is_account (readies a m now) rows r h =
    guarded IsCapped (is_account a) _ _ (write_ready a m rows) rows
      (upsert-IsCapped a m _ _ (omega arith) (λ _ _. omega arith) rows h) h
step-IsCapped is_account (advances a m error_class now) rows r h =
    guarded IsCapped (is_account a) _ _ (write_rate_limit a m error_class now rows) rows
      (upsert-IsCapped a m _ (advance_row error_class (unix now)) (omega arith)
        (λ r b. ground arith) rows h)
      h
step-IsCapped is_account (promotes now) rows r h =
    promote-IsCapped cleanup_batch_size (unix now) rows h

-- If the backoff levels of a table and those that callers put are at most 6, then after any sequence of
-- the repository's statements, with whatever accounts there are at each, the levels of the table are.
pub run-IsCapped :
    (calls : List ((String → Bool) × Call)) (rows : List State)
    → All (λ (c : (String → Bool) × Call). InRange c.1) calls
    → IsCapped rows
    → IsCapped (run calls rows)
unfolding run
run-IsCapped [] rows r h = h
run-IsCapped (c ∷ calls) rows r h =
    run-IsCapped calls (step c.0 c.1 rows) r.1 (step-IsCapped c.0 c.1 rows r.0 h)

-- The key that a statement is for; the clean-up is for every key.
abbrev pub IsFor : String → String → Call → Type 0
IsFor b n (puts value) = (str_eq value.account_id b && str_eq value.model n) ≡ true
IsFor b n (gets a m now) = (str_eq a b && str_eq m n) ≡ true
IsFor b n (readies a m now) = (str_eq a b && str_eq m n) ≡ true
IsFor b n (advances a m error_class now) = (str_eq a b && str_eq m n) ≡ true
IsFor b n (promotes now) = Unit {0}

missed : {b : Bool} → ¬ (b ≡ true) → b ≡ false
missed {b} h = elim (Bool-cases b) [ inl e ↦ absurd (h e) | inr e ↦ e ]

-- A statement that is for one account and model leaves the row of every other key as it is.
pub step-other :
    (is_account : String → Bool) (c : Call) (b n : String) (rows : List State)
    → ¬ IsFor b n c
    → find_row b n (step is_account c rows) ≡ find_row b n rows
unfolding step put get ready advance_rate_limit write write_ready write_rate_limit
step-other is_account (puts value) b n rows h =
    guarded (λ l. find_row b n l ≡ find_row b n rows) (is_account value.account_id) _ _
      (write value rows) rows
      (find_row-upsert_other value.account_id value.model b n (missed h) _ (λ _ _ _. refl) _
        (ground (arith, str_eq_refl value.account_id, str_eq_refl value.model)) rows)
      refl
step-other is_account (gets a m now) b n rows h =
    find_row-update_row_other a m b n (missed h) (expire_if_due (unix now))
      (expire_if_due-KeepsKey (unix now)) rows
step-other is_account (readies a m now) b n rows h =
    guarded (λ l. find_row b n l ≡ find_row b n rows) (is_account a) _ _ (write_ready a m rows) rows
      (find_row-upsert_other a m b n (missed h) _ (λ _ _ _. refl) _
        (ground (arith, str_eq_refl a, str_eq_refl m)) rows)
      refl
step-other is_account (advances a m error_class now) b n rows h =
    guarded (λ l. find_row b n l ≡ find_row b n rows) (is_account a) _ _
      (write_rate_limit a m error_class now rows) rows
      (find_row-upsert_other a m b n (missed h) (advance_row error_class (unix now))
        (advance_row-KeepsKey error_class (unix now)) _
        (ground (arith, str_eq_refl a, str_eq_refl m)) rows)
      refl
step-other is_account (promotes now) b n rows h = absurd (h tt)

promote_lem :
    (limit now : ℕ) (rows : List State)
    → ((promote limit now rows).0 ≤ limit)
      × ((promote limit now rows).0 < limit
          → All (λ (r : State). is_expired r.cooldown_until now ≡ false) (promote limit now rows).1)
unfolding promote
promote_lem limit now [] = (omega arith, λ _. tt)
promote_lem zero now (r ∷ rows) = (omega arith, λ h. absurd (omega arith))
promote_lem (suc limit) now (r ∷ rows) = elim (Bool-cases (is_expired r.cooldown_until now)) [
  | inl hit ↦
      let (bound, done) = promote_lem limit now rows in
      rw hit (omega arith, λ h. (refl, done (omega arith)))
  | inr miss ↦
      let (bound, done) = promote_lem (suc limit) now rows in rw miss (bound, λ h. (miss, done h))
]

-- `PromoteExpired` changes at most 500 rows; if it changes fewer, no expired cooldown is left.
pub promote_expired_lem :
    (now : ℕ) (rows : List State)
    → ((promote_expired now rows).0 ≤ 500)
      × ((promote_expired now rows).0 < 500
          → All
              (λ (r : State). is_expired r.cooldown_until (unix now) ≡ false)
              (promote_expired now rows).1)
unfolding promote_expired
promote_expired_lem now rows = promote_lem cleanup_batch_size (unix now) rows
