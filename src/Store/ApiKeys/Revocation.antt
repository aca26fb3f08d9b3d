-- ===== src/Store/ApiKeys/Revocation.antt =====
-- Which keys authenticate: those that were created, until they are revoked.
use mathlib.Core.Path.{subst}
use byos.Prelude.{
  ℕ, ◌≡◌, ◌≢◌, refl, sym, ap, ◌∙◌, String, Bool, true, false, not, Option, none, some, List, [],
  ◌∷◌, str_eq, str_eq_refl, eq_iff, arith, ◌&&◌, if◌then◌else◌, All, Bool-cases, inl, inr,
}
use byos.Time.{unix, of_unix, time_ptr}
use byos.Store.ApiKeys.{
  ApiKey, Row, Result, ok, err, no_rows, not_unique, is_taken, is_revoked, matched, find_key,
  is_due, update_live, touched, authenticated, create, authenticate, require_affected, revoke,
}

-- No row of `id` is live.
abbrev Dead : String → Row → Type 0
Dead id r = str_eq r.id id ≡ true → is_revoked r.revoked_at ≡ true

update_live-Dead :
    (id : String) (now : ℕ) (rows : List Row)
    → All (Dead id) (update_live id (λ r. record r { revoked_at = some now }) rows).1
unfolding update_live
update_live-Dead id now [] = tt
update_live-Dead id now (r ∷ rows) =
    elim (Bool-cases (str_eq r.id id && not (is_revoked r.revoked_at))) [
      | inl live ↦ rw live ((λ same. refl), update_live-Dead id now rows)
      | inr dead ↦ rw dead (dead_row r.revoked_at dead, update_live-Dead id now rows)
    ]
  where
    dead_row :
        (t : Option ℕ)
        → (str_eq r.id id && not (is_revoked t)) ≡ false
        → str_eq r.id id ≡ true
        → is_revoked t ≡ true
    dead_row t h same = ground arith

-- What a search finds is one of the rows, unless it was there before, and is live.
abbrev Live : Row → Type 0
Live r = is_revoked r.revoked_at ≡ false

taken_row :
    (b : Bool) (x y : Row) (found : Option Row)
    → b ≡ true
    → (if b then some x else found) ≡ some y
    → x ≡ y
taken_row true x y found h q = cc
taken_row false x y found h q = absurd (cc)

left_row :
    (b : Bool) (x : Row) {o : Option Row} (found : Option Row)
    → b ≡ false
    → (if b then some x else found) ≡ o
    → found ≡ o
left_row true x found h q = absurd (cc)
left_row false x found h q = q

chosen-Live :
    (P : Row → Type 0) (a b : Bool) (x y : Row) (found : Option Row)
    → P x
    → ((z : Row) → found ≡ some z → P z × Live z)
    → (if a && (b && not (is_revoked x.revoked_at)) then some x else found) ≡ some y
    → P y × Live y
chosen-Live P a b x y found p before q =
    elim (Bool-cases (a && (b && not (is_revoked x.revoked_at)))) [
      | inl hit ↦
          let same : x ≡ y =
            taken_row (a && (b && not (is_revoked x.revoked_at))) x y found hit q in
          subst (λ z. P z × Live z) same (p, ground arith)
      | inr miss ↦ before y (left_row (a && (b && not (is_revoked x.revoked_at))) x found miss q)
    ]

find_key-All :
    (P : Row → Type 0) (prefix hash : String) (rows : List Row) (found : Option Row) (r : Row)
    → All P rows
    → ((x : Row) → found ≡ some x → P x × Live x)
    → find_key prefix hash rows found ≡ some r
    → P r × Live r
unfolding find_key
find_key-All P prefix hash [] found r h before e = before r e
find_key-All P prefix hash (x ∷ rows) found r h before e =
    find_key-All P prefix hash rows _ r h.1
      (λ y q.
        chosen-Live P (str_eq x.prefix prefix) (str_eq x.key_hash hash) x y found h.0 before q)
      e

touched-id :
    (k key : ApiKey) (now : ℕ) (rows after : List Row) (p : Bool × List Row)
    → touched k now rows p ≡ (ok key, after)
    → key.id ≡ k.id
unfolding touched
touched-id k key now rows after (true, left) h =
    let same : ◌≡◌ {A = Result ApiKey} (ok (record k { last_used_at = some (of_unix (unix now)) }))
        (ok key) =
      ap (λ x. x.0) h in
    let equal : ◌≡◌ {A = ApiKey} (record k { last_used_at = some (of_unix (unix now)) }) key = cc in
    sym (ap (λ x. x.id) equal)
touched-id k key now rows after (false, left) h =
    let same : ◌≡◌ {A = Result ApiKey} (err no_rows) (ok key) = ap (λ x. x.0) h in absurd (cc)

plain-id :
    (k key : ApiKey) (rows after : List Row)
    → ◌≡◌ {A = Result ApiKey × List Row} (ok k, rows) (ok key, after)
    → key.id ≡ k.id
plain-id k key rows after h =
    let same : ◌≡◌ {A = Result ApiKey} (ok k) (ok key) = ap (λ x. x.0) h in
    let equal : k ≡ key = cc in sym (ap (λ x. x.id) equal)

authenticated-id :
    (key : ApiKey) (now : ℕ) (rows after : List Row) (o : Option Row)
    → authenticated now rows o ≡ (ok key, after)
    → (r : Row) × (o ≡ some r) × (key.id ≡ r.id)
unfolding authenticated
authenticated-id key now rows after none h =
    let same : ◌≡◌ {A = Result ApiKey} (err no_rows) (ok key) = ap (λ x. x.0) h in absurd (cc)
authenticated-id key now rows after (some r) h =
    elim (Bool-cases (is_due (time_ptr r.last_used_at) now)) [
      | inl due ↦ (
        r,
        refl,
        touched-id (matched r) key now rows after
            (update_live r.id (λ x. record x { last_used_at = some (unix now) }) rows)
            (ground arith),
      )
      | inr recent ↦ (r, refl, plain-id (matched r) key rows after (ground arith))
    ]

absent : {x : Row} → ◌≡◌ {A = Option Row} none (some x) → ⊥
absent h = cc

both_revoked : (b : Bool) → b ≡ true → b ≡ false → ⊥
both_revoked b h g = cc

-- A key does not authenticate once it is revoked, whoever asks and whenever: whatever key is returned
-- after that has another ID.
pub authenticate-revoke :
    (hash : String → String) (id prefix plaintext : String) (revoked now : ℕ)
    (rows after : List Row) (key : ApiKey)
    → authenticate hash prefix plaintext now (revoke id revoked rows).1 ≡ (ok key, after)
    → key.id ≢ id
unfolding authenticate revoke require_affected
authenticate-revoke hash id prefix plaintext revoked now rows after key h same =
    let left = (revoke id revoked rows).1 in
    let (r, found, named) =
      authenticated-id key now left after (find_key prefix (hash plaintext) left none) h in
    let (dead, live) =
      find_key-All (Dead id) prefix (hash plaintext) left none r
        (update_live-Dead id (unix revoked) rows) (λ x q. absurd (absent q)) found in
    both_revoked (is_revoked r.revoked_at) (dead ((eq_iff r.id id).1 (sym named ∙ same))) live

find_key-fresh :
    (id prefix hash : String) (rows : List Row) (found : Option Row)
    → is_taken id hash rows ≡ false
    → find_key prefix hash rows found ≡ found
unfolding find_key is_taken
find_key-fresh id prefix hash [] found h = refl
find_key-fresh id prefix hash (r ∷ rows) found h =
    ground (arith, find_key-fresh id prefix hash rows found)

abbrev created_row : String → String → String → String → ℕ → Row
created_row id prefix hash label now = record {
  id = id;
  prefix = prefix;
  key_hash = hash;
  label = label;
  created_at = unix now;
  last_used_at = none;
  revoked_at = none;
}

find_key-created :
    (id prefix hash label : String) (now : ℕ) (rows : List Row)
    → is_taken id hash rows ≡ false
    → find_key prefix hash (created_row id prefix hash label now ∷ rows) none
      ≡ some (created_row id prefix hash label now)
unfolding find_key
find_key-created id prefix hash label now rows h =
    rw (str_eq_refl prefix, str_eq_refl hash)
      (find_key-fresh id prefix hash rows (some (created_row id prefix hash label now)) h)

authenticated-created :
    (id prefix hash label : String) (now later : ℕ) (rows : List Row)
    → (authenticated later
        (created_row id prefix hash label now ∷ rows)
        (some (created_row id prefix hash label now))).0
      ≡ ok (record (matched (created_row id prefix hash label now)) {
        last_used_at = some (of_unix (unix later));
      })
unfolding authenticated touched update_live
authenticated-created id prefix hash label now later rows = rw (str_eq_refl id) refl

created-key :
    (b : Bool) (k key : ApiKey) (x : Result ApiKey × List Row) (after : List Row)
    → b ≡ false
    → (if◌then◌else◌ {A = Result ApiKey × List Row} b x (ok k, after)).0 ≡ ok key
    → k ≡ key
created-key true k key x after h e = absurd (cc)
created-key false k key x after h e = cc

with_use : ℕ → ApiKey → Result ApiKey
with_use later k = ok (record k { last_used_at = some (of_unix (unix later)) })

-- A key that was created authenticates with its plaintext at any time, with the time of its use.
pub authenticate-create :
    (hash : String → String) (id prefix label plaintext : String) (now later : ℕ) (rows : List Row)
    (key : ApiKey)
    → (create hash id prefix label plaintext now rows).0 ≡ ok key
    → (authenticate hash prefix plaintext later
        (create hash id prefix label plaintext now rows).1).0
      ≡ ok (record key { last_used_at = some (of_unix (unix later)) })
unfolding create authenticate with_use
authenticate-create hash id prefix label plaintext now later rows key h =
    elim (Bool-cases (is_taken id (hash plaintext) rows)) [
      | inl taken ↦ absurd (ground arith)
      | inr fresh ↦
          let row = created_row id prefix (hash plaintext) label now in
          let same : matched row ≡ key =
            created-key (is_taken id (hash plaintext) rows) (matched row) key (err not_unique, rows)
              (row ∷ rows) fresh h in
          rw fresh (
            ap (λ o. (authenticated later (row ∷ rows) o).0)
              (find_key-created id prefix (hash plaintext) label now rows fresh)
            ∙ authenticated-created id prefix (hash plaintext) label now later rows
            ∙ ap (with_use later) same)
    ]
