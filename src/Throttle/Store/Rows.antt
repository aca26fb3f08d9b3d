-- ===== src/Throttle/Store/Rows.antt =====
-- The table admin_auth_sources of internal/store/admin_auth_throttle.go, as the list of its rows.
use byos.Prelude.{
  ℕ, ◌≡◌, ◌≢◌, refl, String, Option, none, some, List, [], ◌∷◌, str_eq, eq_iff, str_eq_refl,
  if◌then◌else◌, arith,
}

pub record Source : Type 0 where
  pub source_hash : String
  pub failure_count : ℕ
  pub blocked_until : Option ℕ
  pub last_failure_at : Option ℕ
  pub updated_at : ℕ

unfoldable pub find_source : String → List Source → Option Source
find_source hash [] = none
find_source hash (r ∷ rows) = if str_eq r.source_hash hash then some r else find_source hash rows

unfoldable pub delete_source : String → List Source → List Source
delete_source hash [] = []
delete_source hash (r ∷ rows) =
    let rest = delete_source hash rows in if str_eq r.source_hash hash then rest else r ∷ rest

-- INSERT ... ON CONFLICT(source_hash) DO UPDATE of every other column.
unfoldable pub upsert : Source → List Source → List Source
upsert v [] = v ∷ []
upsert v (r ∷ rows) =
    let rest = upsert v rows in if str_eq r.source_hash v.source_hash then v ∷ rows else r ∷ rest

pub find_source-upsert :
    (v : Source) (rows : List Source) → find_source v.source_hash (upsert v rows) ≡ some v
unfolding find_source upsert
find_source-upsert v [] = ground (arith, str_eq_refl v.source_hash)
find_source-upsert v (r ∷ rows) =
    ground (arith, str_eq_refl v.source_hash, find_source-upsert v rows)

pub find_source-upsert_other :
    (v : Source) (rows : List Source) (b : String)
    → v.source_hash ≢ b
    → find_source b (upsert v rows) ≡ find_source b rows
unfolding find_source upsert
find_source-upsert_other v [] b h = ground (arith, eq_iff v.source_hash b)
find_source-upsert_other v (r ∷ rows) b h = ground (
  arith,
  eq_iff v.source_hash b,
  eq_iff r.source_hash v.source_hash,
  eq_iff r.source_hash b,
  find_source-upsert_other v rows b h,
)

pub find_source-delete_source :
    (hash : String) (rows : List Source) → find_source hash (delete_source hash rows) ≡ none
unfolding find_source delete_source
find_source-delete_source hash [] = refl
find_source-delete_source hash (r ∷ rows) = ground (arith, find_source-delete_source hash rows)

pub find_source-delete_source_other :
    (hash : String) (rows : List Source) (b : String)
    → hash ≢ b
    → find_source b (delete_source hash rows) ≡ find_source b rows
unfolding find_source delete_source
find_source-delete_source_other hash [] b h = refl
find_source-delete_source_other hash (r ∷ rows) b h = ground (
  arith,
  eq_iff r.source_hash hash,
  eq_iff r.source_hash b,
  find_source-delete_source_other hash rows b h,
)
