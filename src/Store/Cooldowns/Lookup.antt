-- ===== src/Store/Cooldowns/Lookup.antt =====
-- What a look-up in internal/store/cooldowns.go reports after a write of the same key.
use byos.Prelude.{
  ℕ, ◌+◌, ◌<◌, ◌≡◌, refl, ap, ◌∙◌, String, Option, none, some, List, str_eq_refl, arith,
  Option-cases, Bool-cases, inl, inr, ltb,
}
use byos.Time.{unix, of_unix, time_ptr, nullable_unix}
use byos.Store.Cooldowns.Rows.{State, find_row, updated, upserted, find_row-upsert}
use byos.Store.Cooldowns.{
  Cooldown, scan, scan_found, write, get, write_ready, write_rate_limit, advance_row, expire_if_due,
  backoff_seconds,
}
use byos.Store.Cooldowns.Backoff.{get_lem, advance_row-KeepsKey, fresh_row}

find_row-write :
    (v : Cooldown) (states : List State)
    → (r : State) × (find_row v.account_id v.model (write v states) ≡ some r)
      × (r.cooldown_until ≡ nullable_unix v.until)
      × (r.backoff_level ≡ v.backoff_level)
unfolding write
find_row-write v states = (
  _,
  find_row-upsert v.account_id v.model _ (λ _ _ _. refl) _
      (ground (arith, str_eq_refl v.account_id, str_eq_refl v.model)) states,
  ground arith,
  ground arith,
)

not-due :
    (now until : ℕ) (r : State)
    → r.cooldown_until ≡ some until
    → unix now < until
    → expire_if_due (unix now) r ≡ r
unfolding expire_if_due
not-due now until r e l = ground arith

-- After a write of a cooldown with an end, `Get` reports that end, in whole seconds, until the second in
-- which it lies.
pub get-write :
    (v : Cooldown) (until later : ℕ) (states : List State)
    → v.until ≡ some until
    → unix later < unix until
    → (c : Cooldown) × ((get v.account_id v.model later (write v states)).0 ≡ some c)
      × (c.until ≡ some (of_unix (unix until)))
get-write v until later states u l =
    let (r, found, kept, level) = find_row-write v states in
    let at : r.cooldown_until ≡ some (unix until) = kept ∙ ap nullable_unix u in
    (
      scan r,
      get_lem v.account_id v.model later (write v states)
          ∙ ap (λ o. scan_found (updated (expire_if_due (unix later)) o)) found
          ∙ ap (λ x. some (scan x)) (not-due later (unix until) r at l),
      ap time_ptr at,
    )

-- After the write of `Ready`, `Get` reports at any time a row with no end and with backoff level 0.
pub get-write_ready :
    (a m : String) (later : ℕ) (states : List State)
    → (c : Cooldown) × ((get a m later (write_ready a m states)).0 ≡ some c)
      × (c.until ≡ none)
      × (c.backoff_level ≡ 0)
unfolding write_ready expire_if_due
get-write_ready a m later states = (
  _,
  get_lem a m later (write_ready a m states)
      ∙ ap (λ o. scan_found (updated (expire_if_due (unix later)) o))
          (find_row-upsert a m _ (λ _ _ _. refl) _ (ground (arith, str_eq_refl a, str_eq_refl m))
            states),
  ground arith,
  ground arith,
)

advanced-active :
    (o : Option State) (a m error_class : String) (now : ℕ)
    → (u : ℕ) × ((upserted
          (fresh_row a m error_class now)
          (advance_row error_class (unix now))
          o).cooldown_until
        ≡ some u)
      × (unix now < u)
unfolding advance_row
advanced-active none a m error_class now = (unix (now + 60000000000), refl, omega arith)
advanced-active (some r) a m error_class now = elim (Option-cases r.cooldown_until) [
  | inl e ↦ (unix now + backoff_seconds r.backoff_level, ground arith, ground arith)
  | inr (u, e) ↦ elim (Bool-cases (ltb (unix now) u)) [
    | inl active ↦ (u, ground arith, ground arith)
    | inr over ↦ (unix now + backoff_seconds r.backoff_level, ground arith, ground arith)
  ]
]

-- At the instant of the write of `AdvanceRateLimit`, `Get` reports a cooldown that ends later.
pub get-write_rate_limit :
    (a m error_class : String) (now : ℕ) (states : List State)
    → (c : Cooldown) × (u : ℕ) × ((get a m now (write_rate_limit a m error_class now states)).0
        ≡ some c)
      × (c.until ≡ some u)
      × (now < u)
unfolding write_rate_limit
get-write_rate_limit a m error_class now states =
    let row =
      upserted (fresh_row a m error_class now) (advance_row error_class (unix now))
        (find_row a m states) in
    let (u, at, later) = advanced-active (find_row a m states) a m error_class now in
    (
      scan row,
      of_unix u,
      get_lem a m now (write_rate_limit a m error_class now states)
          ∙ ap (λ o. scan_found (updated (expire_if_due (unix now)) o))
              (find_row-upsert a m (advance_row error_class (unix now))
                (advance_row-KeepsKey error_class (unix now)) (fresh_row a m error_class now)
                (ground (arith, str_eq_refl a, str_eq_refl m)) states)
          ∙ ap (λ x. some (scan x)) (not-due now u row at later),
      ap time_ptr at,
      omega arith,
    )
