-- ===== src/Store/Accounts/Laws.antt =====
-- What the statements of internal/store/accounts.go do to a row, and to the others.
use byos.Prelude.{
  ℕ, ◌≡◌, ◌≢◌, refl, String, Bool, true, false, Option, none, some, List, [], ◌∷◌, str_eq, eq_iff,
  str_eq_refl, ◌&&◌, arith, Option-cases, inl, inr,
}
use byos.Provider.{Kind, is_valid_kind}
use byos.Time.{unix}
use byos.Store.Accounts.{
  Row, Account, ok, find_account, update_where, require_affected, update, mark_relogin_required,
  get, scan, decoded,
}

-- An update whose condition includes the ID.
module _ (id : String) (q : Row → Bool) (f : Row → Row) (keeps : (r : Row) → (f r).id ≡ r.id) where
  abbrev selects : Row → Bool
  selects r = str_eq r.id id && q r

  update_where-found :
      (rows : List Row) (r : Row)
      → find_account id rows ≡ some r
      → q r ≡ true
      → ((update_where selects f rows).0 ≡ true)
        × (find_account id (update_where selects f rows).1 ≡ some (f r))
  unfolding find_account update_where
  update_where-found [] r h t = cc
  update_where-found (x ∷ rows) r h t =
      ground (arith, keeps x, eq_iff x.id id, update_where-found rows r)

  update_where-other :
      (rows : List Row) (b : String)
      → id ≢ b
      → find_account b (update_where selects f rows).1 ≡ find_account b rows
  unfolding find_account update_where
  update_where-other [] b h = refl
  update_where-other (x ∷ rows) b h =
      ground (arith, keeps x, eq_iff x.id id, eq_iff x.id b, update_where-other rows b h)

find_account-id :
    (id : String) (rows : List Row) (r : Row) → find_account id rows ≡ some r → r.id ≡ id
unfolding find_account
find_account-id id [] r h = cc
find_account-id id (x ∷ rows) r h = ground (arith, eq_iff x.id id, find_account-id id rows r)

update_where-ext :
    (p q : Row → Bool) (f : Row → Row) (rows : List Row)
    → ((r : Row) → p r ≡ q r)
    → update_where p f rows ≡ update_where q f rows
unfolding update_where
update_where-ext p q f [] h = refl
update_where-ext p q f (x ∷ rows) h = rw (h x, update_where-ext p q f rows h) refl

and_true : (b : Bool) → b ≡ (b && true)
and_true b = ground arith

abbrev relabel : String → Bool → ℕ → Row → Row
relabel label enabled now r = record r { label = label; enabled = enabled; updated_at = unix now }

pub update-found :
    (id label : String) (enabled : Bool) (now : ℕ) (rows : List Row) (r : Row)
    → find_account id rows ≡ some r
    → ((update id label enabled now rows).0 ≡ none)
      × (find_account id (update id label enabled now rows).1
          ≡ some (record r { label = label; enabled = enabled; updated_at = unix now }))
unfolding update require_affected
update-found id label enabled now rows r h =
    let (hit, found) =
      update_where-found id (λ _. true) (relabel label enabled now) (λ _. refl) rows r h refl in
    rw
      (
        update_where-ext (λ x. str_eq x.id id) (λ x. str_eq x.id id && true)
            (relabel label enabled now) rows (λ x. and_true (str_eq x.id id)),
        hit,
      )
      (refl, found)

pub update-other :
    (id label : String) (enabled : Bool) (now : ℕ) (rows : List Row) (b : String)
    → id ≢ b
    → find_account b (update id label enabled now rows).1 ≡ find_account b rows
unfolding update require_affected
update-other id label enabled now rows b h =
    rw
      (update_where-ext (λ x. str_eq x.id id) (λ x. str_eq x.id id && true)
        (relabel label enabled now) rows (λ x. and_true (str_eq x.id id)))
      (update_where-other id (λ _. true) (relabel label enabled now) (λ _. refl) rows b h)

abbrev relogin : ℕ → Row → Row
relogin now r = record r {
  enabled = false;
  status = "relogin_required";
  last_error = "authentication expired; reconnect required";
  updated_at = unix now;
}

pub mark_relogin_required-found :
    (id : String) (now : ℕ) (rows : List Row) (r : Row)
    → find_account id rows ≡ some r
    → is_valid_kind r.provider ≡ true
    → ((mark_relogin_required id r.provider now rows).0 ≡ none)
      × (find_account id (mark_relogin_required id r.provider now rows).1 ≡ some (relogin now r))
unfolding mark_relogin_required require_affected
mark_relogin_required-found id now rows r h valid =
    let (hit, found) =
      update_where-found id (λ x. str_eq x.provider r.provider) (relogin now) (λ _. refl) rows r h
        (str_eq_refl r.provider) in
    rw (valid, hit) (refl, found)

pub mark_relogin_required-other :
    (id : String) (kind : Kind) (now : ℕ) (rows : List Row) (b : String)
    → id ≢ b
    → find_account b (mark_relogin_required id kind now rows).1 ≡ find_account b rows
unfolding mark_relogin_required require_affected
mark_relogin_required-other id kind now rows b h =
    ground (
      arith,
      update_where-other id (λ x. str_eq x.provider kind) (relogin now) (λ _. refl) rows b h,
    )

-- An account that is read comes from a row with a known provider.
pub get-ok :
    {Credentials : Type 0} (decode : String → Option Credentials) (id : String) (rows : List Row)
    (a : Account Credentials)
    → get decode id rows ≡ ok a
    → (r : Row) × (find_account id rows ≡ some r)
      × (is_valid_kind r.provider ≡ true)
      × (a.provider ≡ r.provider)
      × (a.label ≡ r.label)
unfolding get scan decoded
get-ok decode id rows a h = elim (Option-cases (find_account id rows)) [
  | inl e ↦ absurd (ground arith)
  | inr (r, e) ↦ elim (Option-cases (decode r.credentials_encrypted)) [
    | inl d ↦ absurd (ground arith)
    | inr (c, d) ↦ (r, e, ground arith, ground arith, ground arith)
  ]
]
