-- ===== src/Devin/Session/Tests.antt =====
-- A token that carries its prefix twice, with spaces.
use byos.Prelude.{◌≡◌, refl, false, [], ◌∷◌, ◌++◌, length, arith}
use byos.Devin.Frames.{is_empty}
use byos.Devin.Session.{
  Token, session_token_prefix, ok, trim, strip_prefixes, normalize_session_token,
}
use byos.Devin.Session.Normal.{IsBare, strip_prefixes-enough, normalize_session_token_idempotent}

abbrev token : Token
token = 32 ∷ session_token_prefix ++ (9 ∷ session_token_prefix ++ (97 ∷ 32 ∷ []))

normal : normalize_session_token token ≡ ok (session_token_prefix ++ (97 ∷ []))
unfolding normalize_session_token
normal = refl

normalize_session_token_idempotent_example :
    ((v : Token) × (session_token_prefix ++ (97 ∷ []) ≡ session_token_prefix ++ v)
      × (is_empty v ≡ false)
      × IsBare v)
    × (normalize_session_token (session_token_prefix ++ (97 ∷ []))
        ≡ ok (session_token_prefix ++ (97 ∷ [])))
normalize_session_token_idempotent_example =
    normalize_session_token_idempotent token (session_token_prefix ++ (97 ∷ [])) normal

strip_prefixes-enough_example :
    IsBare (strip_prefixes (length token) (trim token))
    × (strip_prefixes 60 (trim token) ≡ strip_prefixes (length token) (trim token))
strip_prefixes-enough_example = strip_prefixes-enough token 60 (omega arith)
