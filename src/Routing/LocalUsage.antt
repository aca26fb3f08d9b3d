-- ===== src/Routing/LocalUsage.antt =====
-- internal/routing/execute.go: the usage that one finished request adds to an account.
use byos.Prelude.{
  ℕ, String, Bool, Option, none, some, List, [], ◌∷◌, str_eq, ◌==◌, ◌&&◌, ◌||◌, not, if◌then◌else◌,
}
use byos.Provider.{Usage}

pub record LocalUsageDelta : Type 0 where
  pub requests : ℕ
  pub failures : ℕ
  pub input_tokens : ℕ
  pub output_tokens : ℕ
  pub cache_read_tokens : ℕ

abbrev pub one_request : LocalUsageDelta
one_request = record {
  requests = 1;
  failures = 0;
  input_tokens = 0;
  output_tokens = 0;
  cache_read_tokens = 0;
}

abbrev pub one_failure : LocalUsageDelta
one_failure = record one_request { failures = 1 }

-- The fields that the JSON decoder fills.
pub record RawEvent : Type 0 where
  pub type : String
  pub input_tokens : ℕ
  pub output_tokens : ℕ
  pub cached_tokens : ℕ

-- `Event`, with what json.Unmarshal makes of its data; `none` where it fails.
pub record Event : Type 0 where
  pub event : String
  pub raw : Option RawEvent
  pub usage : Usage

abbrev pub is_no_usage : Usage → Bool
is_no_usage u =
    u.input_tokens == 0
    && (u.output_tokens == 0 && (u.total_tokens == 0 && u.cache_read_tokens == 0))

abbrev pub is_terminal_type : String → Bool
is_terminal_type type = str_eq type "response.completed" || str_eq type "response.incomplete"

raw_usage : Option RawEvent → Option LocalUsageDelta
raw_usage none = none
raw_usage (some raw) =
    if is_terminal_type raw.type
    then some (record {
      requests = 1;
      failures = 0;
      input_tokens = raw.input_tokens;
      output_tokens = raw.output_tokens;
      cache_read_tokens = raw.cached_tokens;
    })
    else none

-- `none` is the pair of the zero delta and false.
unfoldable pub terminal_usage : Event → Option LocalUsageDelta
unfolding raw_usage
terminal_usage e =
    if not (is_no_usage e.usage)
    then some (record {
      requests = 1;
      failures = 0;
      input_tokens = e.usage.input_tokens;
      output_tokens = e.usage.output_tokens;
      cache_read_tokens = e.usage.cache_read_tokens;
    })
    else raw_usage e.raw

pub or_else {ℓ} : {A : Type ℓ} → Option A → A → A
or_else none a = a
or_else (some b) a = b

-- The loop from the last index down: what the later events give goes before the event itself.
unfoldable pub last_terminal : List Event → Option LocalUsageDelta
last_terminal [] = none
last_terminal (e ∷ events) = elim (last_terminal events) [
  | some delta ↦ some delta
  | none ↦ terminal_usage e
]

unfoldable pub completed_usage : List Event → LocalUsageDelta
unfolding or_else last_terminal
completed_usage events = or_else (last_terminal events) one_request
