-- ===== src/Store/ApiKeys.antt =====
-- internal/store/api_keys.go: the table api_keys, with the primary key id and the unique column key_hash.
-- `hash` is SHA-256, and `by_creation` is ORDER BY created_at,id.
pub mod Revocation
mod Tests
use byos.Prelude.{
  ℕ, ◌+◌, String, Bool, true, false, not, Option, none, some, List, [], ◌∷◌, str_eq, ltb, ◌&&◌,
  ◌||◌, if◌then◌else◌,
}
use byos.Time.{unix, of_unix, time_ptr, minute}

pub record ApiKey : Type 0 where
  pub id : String
  pub prefix : String
  pub label : String
  pub created_at : ℕ
  pub last_used_at : Option ℕ
  pub revoked_at : Option ℕ

pub record Row : Type 0 where
  pub id : String
  pub prefix : String
  pub key_hash : String
  pub label : String
  pub created_at : ℕ
  pub last_used_at : Option ℕ
  pub revoked_at : Option ℕ

pub data Error : Type 0 where
  not_unique no_rows : Error

pub data Result {ℓ} (A : Type ℓ) : Type ℓ where
  err : Error → Result A
  ok : A → Result A

abbrev pub last_use_interval : ℕ
last_use_interval = 3600000000000

unfoldable pub is_taken : String → String → List Row → Bool
is_taken id hash [] = false
is_taken id hash (r ∷ rows) = (str_eq r.id id || str_eq r.key_hash hash) || is_taken id hash rows

abbrev pub is_revoked : Option ℕ → Bool
is_revoked none = false
is_revoked (some t) = true

-- The value that the loop of `Authenticate` builds of a row.
abbrev pub matched : Row → ApiKey
matched r = record {
  id = r.id;
  prefix = r.prefix;
  label = r.label;
  created_at = of_unix r.created_at;
  last_used_at = time_ptr r.last_used_at;
  revoked_at = none;
}

abbrev pub listed : Row → ApiKey
listed r = record (matched r) { revoked_at = time_ptr r.revoked_at }

-- The loop: the last row that matches.
unfoldable pub find_key : String → String → List Row → Option Row → Option Row
find_key prefix hash [] found = found
find_key prefix hash (r ∷ rows) found = find_key prefix hash rows (
    if str_eq r.prefix prefix && (str_eq r.key_hash hash && not (is_revoked r.revoked_at))
    then some r
    else found)

abbrev pub is_due : Option ℕ → ℕ → Bool
is_due none now = true
is_due (some used) now = ltb (used + last_use_interval) now

-- `UPDATE ... WHERE id=? AND revoked_at IS NULL`, with whether a row was affected.
unfoldable pub update_live : String → (Row → Row) → List Row → Bool × List Row
update_live id f [] = (false, [])
update_live id f (r ∷ rows) =
    let (affected, rows') = update_live id f rows in
    if str_eq r.id id && not (is_revoked r.revoked_at)
    then (true, f r ∷ rows')
    else (affected, r ∷ rows')

-- The end of the transaction: without an affected row it is rolled back.
unfoldable pub touched : ApiKey → ℕ → List Row → Bool × List Row → Result ApiKey × List Row
touched key now rows (true, after) =
    (ok (record key { last_used_at = some (of_unix (unix now)) }), after)
touched key now rows (false, after) = (err no_rows, rows)

unfoldable pub authenticated : ℕ → List Row → Option Row → Result ApiKey × List Row
unfolding touched update_live
authenticated now rows none = (err no_rows, rows)
authenticated now rows (some r) =
    if is_due (time_ptr r.last_used_at) now
    then touched (matched r) now rows
        (update_live r.id (λ x. record x { last_used_at = some (unix now) }) rows)
    else (ok (matched r), rows)

module _ (hash : String → String) where
  unfoldable pub create :
      String → String → String → String → ℕ → List Row → Result ApiKey × List Row
  unfolding is_taken
  create id prefix label plaintext now rows =
      if is_taken id (hash plaintext) rows then (err not_unique, rows) else (
        ok (record {
          id = id;
          prefix = prefix;
          label = label;
          created_at = of_unix (unix now);
          last_used_at = none;
          revoked_at = none;
        }),
        record {
          id = id;
          prefix = prefix;
          key_hash = hash plaintext;
          label = label;
          created_at = unix now;
          last_used_at = none;
          revoked_at = none;
        }
            ∷ rows,
      )

  unfoldable pub authenticate : String → String → ℕ → List Row → Result ApiKey × List Row
  unfolding authenticated find_key
  authenticate prefix plaintext now rows =
      authenticated now rows (find_key prefix (hash plaintext) rows none)

abbrev pub listed_all : List Row → List ApiKey
listed_all [] = []
listed_all (r ∷ rows) = listed r ∷ listed_all rows

unfoldable pub list : (List Row → List Row) → List Row → List ApiKey
list by_creation rows = listed_all (by_creation rows)

unfoldable pub require_affected : Bool × List Row → Option Error × List Row
require_affected (affected, rows) = (if affected then none else some no_rows, rows)

unfoldable pub revoke : String → ℕ → List Row → Option Error × List Row
unfolding update_live require_affected
revoke id now rows =
    require_affected (update_live id (λ r. record r { revoked_at = some (unix now) }) rows)
