-- ===== src/Devin/Session.antt =====
-- internal/devin/session.go. A token is the list of its Unicode code points; `is_space` is unicode.IsSpace.
pub mod Normal
mod Tests
use byos.Prelude.{
  ℕ, zero, suc, String, Bool, true, false, not, Option, none, some, List, [], ◌∷◌, ◌++◌, length,
  leb, ◌==◌, ◌&&◌, ◌||◌, if◌then◌else◌,
}
use byos.Devin.Frames.{is_empty, without_prefix}

abbrev pub Token : Type 0
Token = List ℕ

abbrev pub within : ℕ → ℕ → ℕ → Bool
within low high c = leb low c && leb c high

unfoldable pub is_space : ℕ → Bool
is_space c =
    within 9 13 c
    || (c == 32
        || (c == 133
            || (c == 160
                || (c == 5760
                    || (within 8192 8202 c
                        || (within 8232 8233 c || (c == 8239 || (c == 8287 || c == 12288))))))))

unfoldable pub trim_left : Token → Token
unfolding is_space
trim_left [] = []
trim_left (c ∷ cs) = let rest = trim_left cs in if is_space c then rest else c ∷ cs

unfoldable pub trim_right : Token → Token
unfolding is_space
trim_right [] = []
trim_right (c ∷ cs) =
    let rest = trim_right cs in if is_empty rest && is_space c then [] else c ∷ rest

-- strings.TrimSpace.
unfoldable pub trim : Token → Token
unfolding trim_left trim_right
trim t = trim_right (trim_left t)

-- "devin-session-token$".
abbrev pub session_token_prefix : Token
session_token_prefix =
    100 ∷ 101 ∷ 118 ∷ 105 ∷ 110 ∷ 45 ∷ 115 ∷ 101 ∷ 115 ∷ 115 ∷ 105 ∷ 111 ∷ 110 ∷ 45 ∷ 116 ∷ 111
    ∷ 107 ∷ 101 ∷ 110 ∷ 36 ∷ []

pub data Error : Type 0 where
  session_token_required : Error

pub data Result {ℓ} (A : Type ℓ) : Type ℓ where
  ok : A → Result A
  err : Error → Result A

-- The token after one round of the loop, where there is one.
abbrev pub stripped : (Token → Token) → Token → Option Token → Token
stripped next t none = t
stripped next t (some rest) = next (trim rest)

-- The loop, with a bound on its rounds.
unfoldable pub strip_prefixes : ℕ → Token → Token
unfolding without_prefix trim
strip_prefixes zero t = t
strip_prefixes (suc rounds) t =
    stripped (strip_prefixes rounds) t (without_prefix session_token_prefix t)

-- A round takes the length of the prefix off, so there are fewer rounds than code points.
unfoldable pub normalize_session_token : Token → Result Token
unfolding strip_prefixes trim
normalize_session_token token =
    let t = strip_prefixes (length token) (trim token) in
    if is_empty t then err session_token_required else ok (session_token_prefix ++ t)

pub record Metadata : Type 0 where
  pub ide_name : String
  pub ide_version : String
  pub extension_name : String
  pub extension_version : String
  pub locale : String
  pub api_key : Token

with_key : Result Token → Result Metadata
with_key (err e) = err e
with_key (ok key) = ok (record {
  ide_name = "windsurf";
  ide_version = "3.2.23";
  extension_name = "windsurf";
  extension_version = "1.48.2";
  locale = "en";
  api_key = key;
})

unfoldable pub source_metadata : Token → Result Metadata
unfolding normalize_session_token with_key
source_metadata token = with_key (normalize_session_token token)
