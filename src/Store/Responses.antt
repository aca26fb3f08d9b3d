-- ===== src/Store/Responses.antt =====
-- internal/store/responses.go: the table response_sessions, with the primary key response_id. The cipher
-- of internal/crypto is a parameter. There is no foreign key: migrations/002_preserve_response_chain.sql
-- made the table anew without that of previous_response_id in 001_initial.sql.
pub mod Laws
use byos.Prelude.{
  ℕ, zero, suc, String, Bool, true, false, Option, none, some, List, [], ◌∷◌, str_eq, ltb,
  if◌then◌else◌, ◌&&◌,
}
use byos.Time.{unix, of_unix}
use byos.Store.Cooldowns.{cleanup_batch_size}

pub record ResponseSession : Type 0 where
  pub response_id : String
  pub upstream_response_id : String
  pub previous_response_id : String
  pub model : String
  pub preferred_account_id : String
  pub input : String
  pub output : String
  pub store : Bool
  pub created_at : ℕ
  pub expires_at : ℕ

pub record Row : Type 0 where
  pub response_id : String
  pub upstream_response_id : Option String
  pub previous_response_id : Option String
  pub model : String
  pub preferred_account_id : Option String
  pub input_encrypted : String
  pub output_encrypted : String
  pub store : Bool
  pub created_at : ℕ
  pub expires_at : ℕ

pub data Error : Type 0 where
  no_rows not_unique cipher_failed : Error

pub data Result {ℓ} (A : Type ℓ) : Type ℓ where
  ok : A → Result A
  err : Error → Result A

pub record Cipher : Type 0 where
  pub encrypt : String → Option String
  pub decrypt : String → Option String

-- `nullString`, and the `String` of a sql.NullString.
abbrev pub null_string : String → Option String
null_string s = if str_eq s "" then none else some s

abbrev pub string_of : Option String → String
string_of none = ""
string_of (some s) = s

-- `WHERE response_id=? AND expires_at>?`.
unfoldable pub find_row : String → ℕ → List Row → Option Row
find_row id now [] = none
find_row id now (r ∷ rows) =
    if str_eq r.response_id id && ltb now r.expires_at then some r else find_row id now rows

abbrev pub has_id : String → List Row → Bool
has_id id [] = false
has_id id (r ∷ rows) = if str_eq r.response_id id then true else has_id id rows

abbrev pub link_of : Option Row → Option (String × String)
link_of none = none
link_of (some r) = some (string_of r.previous_response_id, string_of r.preferred_account_id)

-- The links do not need the cipher.
unfoldable pub get_link : String → ℕ → List Row → Option (String × String)
unfolding find_row
get_link id now rows = link_of (find_row id (unix now) rows)

unfoldable pub clean : ℕ → ℕ → List Row → ℕ × List Row
clean limit before [] = (0, [])
clean zero before (r ∷ rows) = (0, r ∷ rows)
clean (suc limit) before (r ∷ rows) =
    let (n, rows') = clean limit before rows in
    let (m, rows'') = clean (suc limit) before rows in
    if ltb r.expires_at before then (suc n, rows') else (m, r ∷ rows'')

unfoldable pub cleanup : ℕ → List Row → ℕ × List Row
unfolding clean
cleanup before = clean cleanup_batch_size (unix before)

-- The row of the INSERT.
abbrev pub sealed : ResponseSession → String → String → Row
sealed v input output = record {
  response_id = v.response_id;
  upstream_response_id = null_string v.upstream_response_id;
  previous_response_id = null_string v.previous_response_id;
  model = v.model;
  preferred_account_id = null_string v.preferred_account_id;
  input_encrypted = input;
  output_encrypted = output;
  store = v.store;
  created_at = unix v.created_at;
  expires_at = unix v.expires_at;
}

module _ (cipher : Cipher) where
  -- The INSERT, once both texts are encrypted.
  insert : ResponseSession → Option String → Option String → List Row → Option Error × List Row
  insert v none output rows = (some cipher_failed, rows)
  insert v (some input) none rows = (some cipher_failed, rows)
  insert v (some input) (some output) rows =
      if has_id v.response_id rows
      then (some not_unique, rows)
      else (none, sealed v input output ∷ rows)

  unfoldable pub put : ResponseSession → List Row → Option Error × List Row
  unfolding insert
  put v = insert v (cipher.encrypt v.input) (cipher.encrypt v.output)

  opened : Row → Option String → Option String → Result ResponseSession
  opened r none output = err cipher_failed
  opened r (some input) none = err cipher_failed
  opened r (some input) (some output) = ok (record {
    response_id = r.response_id;
    upstream_response_id = string_of r.upstream_response_id;
    previous_response_id = string_of r.previous_response_id;
    model = r.model;
    preferred_account_id = string_of r.preferred_account_id;
    input = input;
    output = output;
    store = r.store;
    created_at = of_unix r.created_at;
    expires_at = of_unix r.expires_at;
  })

  scan : Option Row → Result ResponseSession
  unfolding opened
  scan none = err no_rows
  scan (some r) = opened r (cipher.decrypt r.input_encrypted) (cipher.decrypt r.output_encrypted)

  unfoldable pub get : String → ℕ → List Row → Result ResponseSession
  unfolding scan find_row
  get id now rows = scan (find_row id (unix now) rows)
