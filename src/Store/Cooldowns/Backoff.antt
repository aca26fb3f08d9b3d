-- ===== src/Store/Cooldowns/Backoff.antt =====
-- Rate limits, cooldowns and their expiry in internal/store/cooldowns.go.
use native.Mathlib.Nat.{pow-suc}
use byos.Prelude.{
  ℕ, zero, suc, ◌+◌, ◌*◌, ◌^◌, ◌≤◌, ◌<◌, ◌≡◌, refl, sym, ap, ◌∙◌, min, String, Bool, true, false,
  Option, none, some, List, str_eq_refl, arith, Bool-cases, Option-cases, inl, inr, leb,
}
use byos.Time.{minute, unix, of_unix, time_ptr}
use byos.Store.Accounts.{foreign_key, ok, err}
use byos.Store.Cooldowns.Rows.{
  State, find_row, updated, upserted, KeepsKey, find_row-key, find_row-update_row, find_row-upsert,
}
use byos.Store.Cooldowns.{
  Cooldown, scan, scan_found, get, advance_rate_limit, write_rate_limit, returned, advance_row,
  is_active, expire_if_due, backoff_seconds,
}

pos_pow : (n : ℕ) → 1 ≤ 2 ^ n
pos_pow zero = omega arith
pos_pow (suc n) = rw pow-suc (omega (arith, pos_pow n))

thirty_two : (n : ℕ) → 2 ^ suc (suc (suc (suc (suc n)))) ≡ 32 * 2 ^ n
thirty_two n = simp pow-suc (omega arith)

-- The seconds of the CASE expression are 60 doubled at each level, and 1800 where that is more.
pub backoff_seconds_lem : (level : ℕ) → backoff_seconds level ≡ min (60 * 2 ^ level) 1800
backoff_seconds_lem zero = refl
backoff_seconds_lem (suc zero) = refl
backoff_seconds_lem (suc (suc zero)) = refl
backoff_seconds_lem (suc (suc (suc zero))) = refl
backoff_seconds_lem (suc (suc (suc (suc zero)))) = refl
backoff_seconds_lem (suc (suc (suc (suc (suc n))))) = ground (arith, thirty_two n, pos_pow n)

pub expire_if_due-KeepsKey : (now : ℕ) → KeepsKey (expire_if_due now)
unfolding expire_if_due
expire_if_due-KeepsKey now a m r = ground arith

pub advance_row-KeepsKey : (error_class : String) (now : ℕ) → KeepsKey (advance_row error_class now)
unfolding advance_row
advance_row-KeepsKey error_class now a m r = refl

abbrev until_of : Option Cooldown → Option ℕ
until_of none = none
until_of (some c) = c.until

expire_if_due-active :
    (now : ℕ) (r : State) (until : ℕ)
    → time_ptr (expire_if_due (unix now) r).cooldown_until ≡ some until
    → now < until
unfolding expire_if_due
expire_if_due-active now r until h = elim (Option-cases r.cooldown_until) [
  | inl e ↦ absurd (ground arith)
  | inr (u, e) ↦ elim (Bool-cases (leb u (unix now))) [
    | inl due ↦ absurd (ground arith)
    | inr later ↦ ground arith
  ]
]

pub get_lem :
    (a m : String) (now : ℕ) (rows : List State)
    → (get a m now rows).0 ≡ scan_found (updated (expire_if_due (unix now)) (find_row a m rows))
unfolding get
get_lem a m now rows =
    ap scan_found
      (find_row-update_row a m (expire_if_due (unix now)) (expire_if_due-KeepsKey (unix now)) rows)

-- A cooldown that `Get` reports with an end ends after the present.
pub get-active :
    (a m : String) (now : ℕ) (rows : List State) (c : Cooldown) (until : ℕ)
    → (get a m now rows).0 ≡ some c
    → c.until ≡ some until
    → now < until
get-active a m now rows c until h u = due (find_row a m rows) (sym (get_lem a m now rows) ∙ h)
  where
    due :
        (o : Option State)
        → scan_found (updated (expire_if_due (unix now)) o) ≡ some c
        → now < until
    due none e = cc
    due (some r) e =
        expire_if_due-active now r until (ap (λ (o : Option Cooldown). until_of o) e ∙ u)

-- The level and the end of the cooldown that a key has; no row counts as level 0 with no cooldown.
abbrev pub level_of : Option State → ℕ
level_of none = 0
level_of (some r) = r.backoff_level

abbrev pub cooldown_of : Option State → Option ℕ
cooldown_of none = none
cooldown_of (some r) = r.cooldown_until

-- The row that a first rate limit inserts.
abbrev pub fresh_row : String → String → String → ℕ → State
fresh_row a m error_class now = record {
  account_id = a;
  model = m;
  cooldown_until = some (unix (now + minute));
  backoff_level = 1;
  last_error_class = error_class;
  last_error_at = some (unix now);
}

module _ (o : Option State) (a m error_class : String) (now : ℕ) where
  abbrev advanced : State
  advanced = upserted (fresh_row a m error_class now) (advance_row error_class (unix now)) o

  advance-class : advanced.last_error_class ≡ error_class
  unfolding advance_row
  advance-class = ground arith

  advance-kept :
      is_active (cooldown_of o) (unix now) ≡ true
      → (time_ptr advanced.cooldown_until ≡ time_ptr (cooldown_of o))
        × (advanced.backoff_level ≡ level_of o)
  unfolding advance_row
  advance-kept h = ground arith

  advance-raised :
      is_active (cooldown_of o) (unix now) ≡ false
      → (time_ptr advanced.cooldown_until
          ≡ some (of_unix (unix now + min (60 * 2 ^ level_of o) 1800)))
        × (advanced.backoff_level ≡ min (level_of o + 1) 6)
  unfolding advance_row
  advance-raised h = ground (arith, backoff_seconds_lem (level_of o))

advance-key :
    (o : Option State) (a m error_class : String) (now : ℕ)
    → ((r : State) → o ≡ some r → (r.account_id ≡ a) × (r.model ≡ m))
    → ((advanced o a m error_class now).account_id ≡ a)
      × ((advanced o a m error_class now).model ≡ m)
unfolding advance_row
advance-key none a m error_class now h = (refl, refl)
advance-key (some r) a m error_class now h = h r refl

-- `AdvanceRateLimit` for a key whose account there is not fails and writes nothing. Otherwise it returns
-- the row of the key, which is stored, with the class of the error: a cooldown that was active keeps its
-- end and its level; otherwise it ends 60 s doubled at each level, at most 1800 s, after the present
-- second, and the level grows by one up to 6. No row counts as level 0 with no cooldown.
pub advance_rate_limit_lem :
    (is_account : String → Bool) (a m error_class : String) (now : ℕ) (rows : List State)
    → let before = find_row a m rows in
      let (r, after) = advance_rate_limit is_account a m error_class now rows in
      (is_account a ≡ false → (r ≡ err foreign_key) × (after ≡ rows))
      × (is_account a ≡ true
          → (c : Cooldown) × (r ≡ ok c)
            × (scan_found (find_row a m after) ≡ some c)
            × (c.account_id ≡ a)
            × (c.model ≡ m)
            × (c.last_error_class ≡ error_class)
            × (is_active (cooldown_of before) (unix now) ≡ true
                → (c.until ≡ time_ptr (cooldown_of before)) × (c.backoff_level ≡ level_of before))
            × (is_active (cooldown_of before) (unix now) ≡ false
                → (c.until ≡ some (of_unix (unix now + min (60 * 2 ^ level_of before) 1800)))
                  × (c.backoff_level ≡ min (level_of before + 1) 6)))
unfolding advance_rate_limit write_rate_limit returned
advance_rate_limit_lem is_account a m error_class now rows = (
  λ h. rw h (refl, refl),
  λ h. rw h (
    scan (advanced before a m error_class now),
    ap (λ o. returned (scan_found o)) stored,
    ap scan_found stored,
    (advance-key before a m error_class now (λ r. find_row-key a m rows)).0,
    (advance-key before a m error_class now (λ r. find_row-key a m rows)).1,
    advance-class before a m error_class now,
    advance-kept before a m error_class now,
    advance-raised before a m error_class now,
  ),
)
  where
    before : Option State
    before = find_row a m rows

    stored :
        find_row a m (write_rate_limit a m error_class now rows)
        ≡ some (advanced before a m error_class now)
    stored =
        find_row-upsert a m (advance_row error_class (unix now))
          (advance_row-KeepsKey error_class (unix now)) (fresh_row a m error_class now)
          (ground (arith, str_eq_refl a, str_eq_refl m)) rows
