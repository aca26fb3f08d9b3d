-- ===== src/Store/Accounts.antt =====
-- internal/store/accounts.go: the table accounts and the statements on one account. Decryption and
-- decoding of the credentials are the parameter `decode`; `now` is the database's clock.
pub mod Laws
use byos.Provider.{Kind, is_valid_kind}
use byos.Prelude.{
  ℕ, String, Bool, true, false, Option, none, some, List, [], ◌∷◌, str_eq, if◌then◌else◌, ◌&&◌,
  ◌||◌,
}
use byos.Time.{unix, of_unix, time_ptr}

pub record Row : Type 0 where
  pub id : String
  pub provider : Kind
  pub label : String
  pub enabled : Bool
  pub status : String
  pub credentials_encrypted : String
  pub expires_at : Option ℕ
  pub last_refresh_at : Option ℕ
  pub last_error : String
  pub created_at : ℕ
  pub updated_at : ℕ

pub record Account (Credentials : Type 0) : Type 0 where
  pub provider : Kind
  pub id : String
  pub label : String
  pub enabled : Bool
  pub status : String
  pub credentials : Credentials
  pub expires_at : Option ℕ
  pub last_refresh_at : Option ℕ
  pub last_error : String
  pub created_at : ℕ
  pub updated_at : ℕ

pub data Error : Type 0 where
  no_rows invalid_kind undecodable foreign_key : Error

pub data Result {ℓ} (A : Type ℓ) : Type ℓ where
  ok : A → Result A
  err : Error → Result A

-- `WHERE id=?` on the primary key.
unfoldable pub find_account : String → List Row → Option Row
find_account id [] = none
find_account id (r ∷ rows) = if str_eq r.id id then some r else find_account id rows

-- Whether a foreign key may refer to the account.
unfoldable pub has_account : String → List Row → Bool
has_account id [] = false
has_account id (r ∷ rows) = str_eq r.id id || has_account id rows

-- An UPDATE of the rows that `test` selects, with the rows that it affected.
unfoldable pub update_where : (Row → Bool) → (Row → Row) → List Row → Bool × List Row
update_where test f [] = (false, [])
update_where test f (r ∷ rows) =
    let (affected, rows') = update_where test f rows in
    if test r then (true, f r ∷ rows') else (affected, r ∷ rows')

unfoldable pub require_affected : Bool × List Row → Option Error × List Row
require_affected (affected, rows) = (if affected then none else some no_rows, rows)

unfoldable pub update : String → String → Bool → ℕ → List Row → Option Error × List Row
unfolding update_where require_affected
update id label enabled now rows = require_affected (
    update_where (λ r. str_eq r.id id)
      (λ r. record r { label = label; enabled = enabled; updated_at = unix now }) rows)

unfoldable pub mark_relogin_required : String → Kind → ℕ → List Row → Option Error × List Row
unfolding update_where require_affected
mark_relogin_required id kind now rows =
    if is_valid_kind kind
    then require_affected (
        update_where (λ r. str_eq r.id id && str_eq r.provider kind)
          (λ r. record r {
            enabled = false;
            status = "relogin_required";
            last_error = "authentication expired; reconnect required";
            updated_at = unix now;
          })
          rows)
    else (some invalid_kind, rows)

module _ {Credentials : Type 0} (decode : String → Option Credentials) where
  decoded : Row → Option Credentials → Result (Account Credentials)
  decoded r none = err undecodable
  decoded r (some c) = ok (record {
    provider = r.provider;
    id = r.id;
    label = r.label;
    enabled = r.enabled;
    status = r.status;
    credentials = c;
    expires_at = time_ptr r.expires_at;
    last_refresh_at = time_ptr r.last_refresh_at;
    last_error = r.last_error;
    created_at = of_unix r.created_at;
    updated_at = of_unix r.updated_at;
  })

  unfoldable pub scan : Option Row → Result (Account Credentials)
  unfolding decoded
  scan none = err no_rows
  scan (some r) =
      if is_valid_kind r.provider
      then decoded r (decode r.credentials_encrypted)
      else err invalid_kind

  unfoldable pub get : String → List Row → Result (Account Credentials)
  unfolding scan
  get id rows = scan (find_account id rows)
