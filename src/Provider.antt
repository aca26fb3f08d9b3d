-- ===== src/Provider.antt =====
-- internal/provider/provider.go: provider identity and the classification of errors. The string types
-- are strings; an instant or a duration is a number of nanoseconds, so negative durations are left out.
pub mod Catalog
pub mod Registry
use byos.Prelude.{ℕ, String, Bool, false, Option, none, some, str_eq, ◌||◌, if◌then◌else◌}

abbrev pub Kind : Type 0
Kind = String

abbrev pub is_valid_kind : Kind → Bool
is_valid_kind k = str_eq k "xai" || str_eq k "devin"

-- `none` is ErrInvalidKind. `MarshalText`, `Value` and `UnmarshalText`, `Scan` of a text pass through it.
unfoldable pub parse_kind : String → Option Kind
parse_kind value = if is_valid_kind value then some value else none

pub record ResolvedModel : Type 0 where
  pub public_name : String
  pub upstream_name : String
  pub provider : Kind
  pub owned_by : String
  pub policy_key : String

pub record Usage : Type 0 where
  pub input_tokens : ℕ
  pub output_tokens : ℕ
  pub total_tokens : ℕ
  pub cache_read_tokens : ℕ

abbrev pub ErrorClass : Type 0
ErrorClass = String

abbrev pub CooldownScope : Type 0
CooldownScope = String

pub record ErrorClassification : Type 0 where
  pub class : ErrorClass
  pub retry_next : Bool
  pub refresh_same : Bool
  pub disable_account : Bool
  pub relogin_required : Bool
  pub explicit_retry_after : Bool
  pub cooldown_scope : CooldownScope
  pub cooldown : ℕ
  pub retry_after : ℕ
  pub public_status : ℕ
  pub public_code : String
  pub public_message : String

-- The zero value.
abbrev pub no_classification : ErrorClassification
no_classification = record {
  class = "";
  retry_next = false;
  refresh_same = false;
  disable_account = false;
  relogin_required = false;
  explicit_retry_after = false;
  cooldown_scope = "";
  cooldown = 0;
  retry_after = 0;
  public_status = 0;
  public_code = "";
  public_message = "";
}

pub record UpstreamError : Type 0 where
  pub provider : Kind
  pub status : ℕ
  pub classification : ErrorClassification
