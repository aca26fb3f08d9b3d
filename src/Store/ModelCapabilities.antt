-- ===== src/Store/ModelCapabilities.antt =====
-- internal/store/model_capabilities.go: the table account_model_capabilities, with the primary key of
-- account_id and model. `by_model` is ORDER BY model, and `is_account` says that the table accounts has an
-- ID, which a new row must refer to.
pub mod Laws
use byos.Prelude.{
  ℕ, String, Bool, true, false, not, Option, none, some, List, [], ◌∷◌, ◌++◌, str_eq, ◌&&◌, ◌||◌,
  if◌then◌else◌,
}
use byos.Time.{unix, of_unix}
use byos.Store.Responses.{null_string, string_of}

pub record ModelCapability : Type 0 where
  pub account_id : String
  pub model : String
  pub display_name : String
  pub supported : Bool
  pub supports_backend_search : Option Bool
  pub context_window : ℕ
  pub max_output_tokens : ℕ
  pub reasoning_efforts : List String
  pub discovered_at : ℕ
  pub stale : Bool

-- The efforts are a column of JSON, which is read as it was written.
pub record Row : Type 0 where
  pub account_id : String
  pub model : String
  pub supported : Bool
  pub supports_backend_search : Option Bool
  pub display_name : Option String
  pub context_window : ℕ
  pub max_output_tokens : ℕ
  pub reasoning_efforts : List String
  pub discovered_at : ℕ
  pub stale : Bool

pub data Error : Type 0 where
  not_unique no_account : Error

-- `DELETE ... WHERE account_id=?`.
unfoldable pub delete_account : String → List Row → List Row
delete_account id [] = []
delete_account id (r ∷ rows) =
    let rest = delete_account id rows in if str_eq r.account_id id then rest else r ∷ rest

unfoldable pub has_key : String → String → List Row → Bool
has_key id model [] = false
has_key id model (r ∷ rows) =
    (str_eq r.account_id id && str_eq r.model model) || has_key id model rows

abbrev pub row_of : String → ModelCapability → Row
row_of id v = record {
  account_id = id;
  model = v.model;
  supported = v.supported;
  supports_backend_search = v.supports_backend_search;
  display_name = null_string v.display_name;
  context_window = v.context_window;
  max_output_tokens = v.max_output_tokens;
  reasoning_efforts = v.reasoning_efforts;
  discovered_at = unix v.discovered_at;
  stale = v.stale;
}

abbrev pub value_of : Row → ModelCapability
value_of r = record {
  account_id = r.account_id;
  model = r.model;
  display_name = string_of r.display_name;
  supported = r.supported;
  supports_backend_search = r.supports_backend_search;
  context_window = r.context_window;
  max_output_tokens = r.max_output_tokens;
  reasoning_efforts = r.reasoning_efforts;
  discovered_at = of_unix r.discovered_at;
  stale = r.stale;
}

-- The rows after a transaction: its own, or those before it.
pub data Transaction : Type 0 where
  commits : List Row → Transaction
  rolls_back : Error → Transaction

module _ (is_account : String → Bool) where
  unfoldable pub insert_all : String → List ModelCapability → List Row → Transaction
  unfolding has_key
  insert_all id [] rows = commits rows
  insert_all id (v ∷ values) rows =
      let rest = insert_all id values (row_of id v ∷ rows) in
      if not (is_account id)
      then rolls_back no_account
      else if has_key id v.model rows
      then rolls_back not_unique
      else rest

  unfoldable pub ended : List Row → Transaction → Option Error × List Row
  ended rows (commits after) = (none, after)
  ended rows (rolls_back e) = (some e, rows)

  unfoldable pub replace : String → List ModelCapability → List Row → Option Error × List Row
  unfolding insert_all delete_account ended
  replace id values rows = ended rows (insert_all id values (delete_account id rows))

unfoldable pub mark_stale : String → List Row → List Row
mark_stale id [] = []
mark_stale id (r ∷ rows) =
    (if str_eq r.account_id id then record r { stale = true } else r) ∷ mark_stale id rows

unfoldable pub of_account : String → List Row → List Row
of_account id [] = []
of_account id (r ∷ rows) =
    let rest = of_account id rows in if str_eq r.account_id id then r ∷ rest else rest

abbrev pub values_of : List Row → List ModelCapability
values_of [] = []
values_of (r ∷ rows) = value_of r ∷ values_of rows

unfoldable pub list : (List Row → List Row) → String → List Row → List ModelCapability
unfolding of_account
list by_model id rows = values_of (by_model (of_account id rows))
