-- ===== src/Store/AdminSessions.antt =====
-- internal/store/admin_sessions.go: the table admin_sessions, with the primary key id_hash. `hash` is SHA-256,
-- `is_secret` says that a text has 32 bytes, and a random text that could not be drawn is `none`.
pub mod Revocation
mod Tests
use byos.Prelude.{
  ℕ, zero, suc, String, Bool, true, false, not, Option, none, some, List, [], ◌∷◌, str_eq, ltb, leb,
  ◌&&◌, ◌||◌, if◌then◌else◌,
}
use byos.Time.{unix, of_unix}
use byos.Store.Cooldowns.{cleanup_batch_size}
use byos.Store.Responses.{Cipher}

-- No session that the repository returns has the instant of a revocation.
pub record AdminSession : Type 0 where
  pub csrf_secret : String
  pub created_at : ℕ
  pub expires_at : ℕ
  pub revoked_at : Option ℕ

pub record CreatedAdminSession : Type 0 where
  pub token : String
  pub session : AdminSession

pub record Row : Type 0 where
  pub id_hash : String
  pub csrf_secret_encrypted : String
  pub created_at : ℕ
  pub expires_at : ℕ
  pub revoked_at : Option ℕ

pub data Error : Type 0 where
  expiry_must_follow_creation no_random_text cipher_failed not_unique no_rows invalid_secret : Error

pub data Result {ℓ} (A : Type ℓ) : Type ℓ where
  err : Error → Result A
  ok : A → Result A

abbrev pub is_revoked : Option ℕ → Bool
is_revoked none = false
is_revoked (some t) = true

abbrev pub has_hash : String → List Row → Bool
has_hash hash [] = false
has_hash hash (r ∷ rows) = if str_eq r.id_hash hash then true else has_hash hash rows

-- `WHERE id_hash=? AND revoked_at IS NULL AND expires_at>?`.
unfoldable pub find_row : String → ℕ → List Row → Option Row
find_row hash now [] = none
find_row hash now (r ∷ rows) =
    if str_eq r.id_hash hash && (not (is_revoked r.revoked_at) && ltb now r.expires_at)
    then some r
    else find_row hash now rows

-- `UPDATE ... WHERE id_hash=? AND revoked_at IS NULL`.
unfoldable pub revoke_rows : String → ℕ → List Row → Bool × List Row
revoke_rows hash now [] = (false, [])
revoke_rows hash now (r ∷ rows) =
    let (affected, rows') = revoke_rows hash now rows in
    if str_eq r.id_hash hash && not (is_revoked r.revoked_at)
    then (true, record r { revoked_at = some now } ∷ rows')
    else (affected, r ∷ rows')

abbrev pub is_over : ℕ → Row → Bool
is_over before r = leb r.expires_at before || is_gone r.revoked_at
  where
    is_gone : Option ℕ → Bool
    is_gone none = false
    is_gone (some t) = leb t before

unfoldable pub clean : ℕ → ℕ → List Row → ℕ × List Row
clean limit before [] = (0, [])
clean zero before (r ∷ rows) = (0, r ∷ rows)
clean (suc limit) before (r ∷ rows) =
    let (n, rows') = clean limit before rows in
    let (m, rows'') = clean (suc limit) before rows in
    if is_over before r then (suc n, rows') else (m, r ∷ rows'')

unfoldable pub cleanup : ℕ → List Row → ℕ × List Row
unfolding clean
cleanup before = clean cleanup_batch_size (unix before)

module _ (hash : String → String) (is_secret : String → Bool) (cipher : Cipher) where
  -- The INSERT, once the secret is encrypted.
  insert :
      String → String → ℕ → ℕ → Option String → List Row → Result CreatedAdminSession × List Row
  insert token secret created expires none rows = (err cipher_failed, rows)
  insert token secret created expires (some encrypted) rows =
      if has_hash (hash token) rows then (err not_unique, rows) else (
        ok (record {
          token = token;
          session = record {
            csrf_secret = secret;
            created_at = of_unix created;
            expires_at = of_unix expires;
            revoked_at = none;
          };
        }),
        record {
          id_hash = hash token;
          csrf_secret_encrypted = encrypted;
          created_at = created;
          expires_at = expires;
          revoked_at = none;
        }
            ∷ rows,
      )

  drawn : Option String → Option String → ℕ → ℕ → List Row → Result CreatedAdminSession × List Row
  unfolding insert
  drawn none secret created expires rows = (err no_random_text, rows)
  drawn (some token) none created expires rows = (err no_random_text, rows)
  drawn (some token) (some secret) created expires rows =
      insert token secret created expires (cipher.encrypt secret) rows

  unfoldable pub create :
      Option String → Option String → ℕ → ℕ → List Row → Result CreatedAdminSession × List Row
  unfolding drawn
  create token secret created_at expires_at rows =
      if not (ltb (unix created_at) (unix expires_at))
      then (err expiry_must_follow_creation, rows)
      else drawn token secret (unix created_at) (unix expires_at) rows

  opened : Row → Option String → Result AdminSession
  opened r none = err cipher_failed
  opened r (some secret) =
      if not (is_secret secret)
      then err invalid_secret
      else ok (record {
        csrf_secret = secret;
        created_at = of_unix r.created_at;
        expires_at = of_unix r.expires_at;
        revoked_at = none;
      })

  scan : Option Row → Result AdminSession
  unfolding opened
  scan none = err no_rows
  scan (some r) = opened r (cipher.decrypt r.csrf_secret_encrypted)

  unfoldable pub get : String → ℕ → List Row → Result AdminSession
  unfolding scan find_row
  get token now rows = scan (find_row (hash token) (unix now) rows)

  require_affected : Bool × List Row → Option Error × List Row
  require_affected (affected, rows) = (if affected then none else some no_rows, rows)

  unfoldable pub revoke : String → ℕ → List Row → Option Error × List Row
  unfolding revoke_rows require_affected
  revoke token now rows = require_affected (revoke_rows (hash token) (unix now) rows)
