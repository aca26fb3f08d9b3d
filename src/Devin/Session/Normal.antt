-- ===== src/Devin/Session/Normal.antt =====
-- The normal form of a session token.
use mathlib.Core.Path.{subst}
use byos.Prelude.{
  ℕ, zero, suc, ◌+◌, ◌≤◌, ◌≡◌, refl, sym, ap, ◌∙◌, Bool, true, false, Option, none, some, [], ◌∷◌,
  ◌++◌, length, ◌==◌, ◌&&◌, if◌then◌else◌, arith, Bool-cases, inl, inr,
}
use byos.Devin.Frames.{is_empty, without_prefix}
use byos.Devin.Session.{
  Token, is_space, trim_left, trim_right, trim, session_token_prefix, Result, ok, err,
  session_token_required, stripped, strip_prefixes, normalize_session_token,
}

-- The first code point is not a space.
abbrev Leads : Token → Type 0
Leads [] = Unit
Leads (c ∷ cs) = is_space c ≡ false

trim_left-Leads : (t : Token) → Leads (trim_left t)
unfolding trim_left
trim_left-Leads [] = tt
trim_left-Leads (c ∷ cs) = elim (Bool-cases (is_space c)) [
  | inl space ↦ rw space (trim_left-Leads cs)
  | inr solid ↦ rw solid solid
]

Leads-trim_left : (t : Token) → Leads t → trim_left t ≡ t
unfolding trim_left
Leads-trim_left [] h = refl
Leads-trim_left (c ∷ cs) h = rw h refl

Leads-trim_right : (t : Token) → Leads t → Leads (trim_right t)
unfolding trim_right
Leads-trim_right [] h = tt
Leads-trim_right (c ∷ cs) h = elim (Bool-cases (is_empty (trim_right cs))) [
  | inl nothing ↦ rw (nothing, h) h
  | inr something ↦ rw something h
]

trim_right_idempotent : (t : Token) → trim_right (trim_right t) ≡ trim_right t
unfolding trim_right
trim_right_idempotent [] = refl
trim_right_idempotent (c ∷ cs) = elim (Bool-cases (is_empty (trim_right cs) && is_space c)) [
  | inl blank ↦ rw blank refl
  | inr solid ↦ rw solid (rw (trim_right_idempotent cs, solid) refl)
]

trim_idempotent : (t : Token) → trim (trim t) ≡ trim t
unfolding trim
trim_idempotent t =
    ap trim_right (
      Leads-trim_left (trim_right (trim_left t))
        (Leads-trim_right (trim_left t) (trim_left-Leads t)))
    ∙ trim_right_idempotent (trim_left t)

length-trim_left : (t : Token) → length (trim_left t) ≤ length t
unfolding trim_left
length-trim_left [] = omega arith
length-trim_left (c ∷ cs) = ground (arith, length-trim_left cs)

length-trim_right : (t : Token) → length (trim_right t) ≤ length t
unfolding trim_right
length-trim_right [] = omega arith
length-trim_right (c ∷ cs) = ground (arith, length-trim_right cs)

length-trim : (t : Token) → length (trim t) ≤ length t
unfolding trim
length-trim t = omega (arith, length-trim_right (trim_left t), length-trim_left t)

length-without_prefix :
    (p t rest : Token) → without_prefix p t ≡ some rest → length p + length rest ≡ length t
unfolding without_prefix
length-without_prefix [] t rest h = let same : t ≡ rest = cc in omega (arith, ap length same)
length-without_prefix (c ∷ p) [] rest h = absurd (cc)
length-without_prefix (c ∷ p) (d ∷ t) rest h = elim (Bool-cases (c == d)) [
  | inl same ↦ omega (arith, length-without_prefix p t rest (ground arith))
  | inr other ↦ absurd (ground arith)
]

without_prefix-append : (p t : Token) → without_prefix p (p ++ t) ≡ some t
unfolding without_prefix
without_prefix-append [] t = refl
without_prefix-append (c ∷ p) t = ground (arith, without_prefix-append p t)

no_room : (c : ℕ) (cs : Token) → length (c ∷ cs) ≤ zero → ⊥
no_room c cs h = omega (arith, h)

-- What is left once the loop has ended.
pub record IsBare (t : Token) : Type 0 where
  pub no_prefix : without_prefix session_token_prefix t ≡ none
  pub trimmed : trim t ≡ t

stripped-IsBare :
    (rounds : ℕ) (t : Token) (o : Option Token)
    → without_prefix session_token_prefix t ≡ o
    → length t ≤ suc rounds
    → trim t ≡ t
    → ((k : Token) → length k ≤ rounds → trim k ≡ k → IsBare (strip_prefixes rounds k))
    → IsBare (stripped (strip_prefixes rounds) t o)
stripped-IsBare rounds t none q h e ih = record { no_prefix = q; trimmed = e }
stripped-IsBare rounds t (some rest) q h e ih =
    ih (trim rest)
      (omega (arith, length-trim rest, length-without_prefix session_token_prefix t rest q, h))
      (trim_idempotent rest)

strip_prefixes-IsBare :
    (rounds : ℕ) (t : Token) → length t ≤ rounds → trim t ≡ t → IsBare (strip_prefixes rounds t)
unfolding strip_prefixes
strip_prefixes-IsBare zero [] h e = record { no_prefix = refl; trimmed = e }
strip_prefixes-IsBare zero (c ∷ cs) h e = absurd (no_room c cs h)
strip_prefixes-IsBare (suc rounds) t h e =
    stripped-IsBare rounds t (without_prefix session_token_prefix t) refl h e
      (strip_prefixes-IsBare rounds)

-- Further rounds change nothing.
strip_prefixes-bare :
    (rounds : ℕ) (t : Token)
    → without_prefix session_token_prefix t ≡ none
    → strip_prefixes rounds t ≡ t
unfolding strip_prefixes
strip_prefixes-bare zero t h = refl
strip_prefixes-bare (suc rounds) t h = ap (stripped (strip_prefixes rounds) t) h

stripped-same :
    (r s : ℕ) (t : Token) (o : Option Token)
    → without_prefix session_token_prefix t ≡ o
    → length t ≤ suc r
    → length t ≤ suc s
    → ((k : Token) → length k ≤ r → length k ≤ s → strip_prefixes r k ≡ strip_prefixes s k)
    → stripped (strip_prefixes r) t o ≡ stripped (strip_prefixes s) t o
stripped-same r s t none q hr hs ih = refl
stripped-same r s t (some rest) q hr hs ih =
    let shorter : suc (length (trim rest)) ≤ length t =
      omega (arith, length-trim rest, length-without_prefix session_token_prefix t rest q) in
    ih (trim rest) (omega (arith, shorter, hr)) (omega (arith, shorter, hs))

strip_prefixes-same :
    (r s : ℕ) (t : Token) → length t ≤ r → length t ≤ s → strip_prefixes r t ≡ strip_prefixes s t
unfolding strip_prefixes
strip_prefixes-same zero s [] hr hs = sym (strip_prefixes-bare s [] refl)
strip_prefixes-same zero s (c ∷ cs) hr hs = absurd (no_room c cs hr)
strip_prefixes-same (suc r) zero [] hr hs = strip_prefixes-bare (suc r) [] refl
strip_prefixes-same (suc r) zero (c ∷ cs) hr hs = absurd (no_room c cs hs)
strip_prefixes-same (suc r) (suc s) t hr hs =
    stripped-same r s t (without_prefix session_token_prefix t) refl hr hs (strip_prefixes-same r s)

-- The bound on the rounds of the loop is no limit: the loop ends with a token that has no prefix and no
-- spaces around it, and any bound that is not below the number of code points gives the same one.
pub strip_prefixes-enough :
    (t : Token) (rounds : ℕ)
    → length t ≤ rounds
    → IsBare (strip_prefixes (length t) (trim t))
      × (strip_prefixes rounds (trim t) ≡ strip_prefixes (length t) (trim t))
strip_prefixes-enough t rounds h = (
  strip_prefixes-IsBare (length t) (trim t) (length-trim t) (trim_idempotent t),
  strip_prefixes-same rounds (length t) (trim t) (omega (arith, length-trim t, h)) (length-trim t),
)

is_empty-append : (p t : Token) → is_empty t ≡ false → is_empty (p ++ t) ≡ false
is_empty-append [] t h = h
is_empty-append (c ∷ p) t h = refl

trim_right-append :
    (p t : Token) → is_empty t ≡ false → trim_right t ≡ t → trim_right (p ++ t) ≡ p ++ t
unfolding trim_right
trim_right-append [] t h e = e
trim_right-append (c ∷ p) t h e = rw (trim_right-append p t h e, is_empty-append p t h) refl

given :
    (b : Bool) (x u : Token)
    → (if b then err session_token_required else ok x) ≡ ok u
    → (b ≡ false) × (x ≡ u)
given true x u h = absurd (cc)
given false x u h = (refl, cc)

none_left : 1 ≤ zero → ⊥
none_left h = omega (arith, h)

-- A bare token after the prefix is found in one round.
strip_prefixes-once :
    (rounds : ℕ) (v : Token)
    → 1 ≤ rounds
    → IsBare v
    → strip_prefixes rounds (session_token_prefix ++ v) ≡ v
unfolding strip_prefixes
strip_prefixes-once zero v h bare = absurd (none_left h)
strip_prefixes-once (suc rounds) v h bare =
    ap (stripped (strip_prefixes rounds) (session_token_prefix ++ v))
      (without_prefix-append session_token_prefix v)
    ∙ ap (strip_prefixes rounds) bare.trimmed
    ∙ strip_prefixes-bare rounds v bare.no_prefix

trim-prefixed :
    (v : Token)
    → is_empty v ≡ false
    → trim_right v ≡ v
    → trim (session_token_prefix ++ v) ≡ session_token_prefix ++ v
unfolding trim is_space
trim-prefixed v h e =
    ap trim_right (Leads-trim_left (session_token_prefix ++ v) refl)
    ∙ trim_right-append session_token_prefix v h e

-- A trimmed token ends without a space.
trim-trim_right : (v : Token) → trim v ≡ v → trim_right v ≡ v
unfolding trim
trim-trim_right v h = ap trim_right (sym h) ∙ trim_right_idempotent (trim_left v) ∙ h

abbrev prefixed : Token → Result Token
prefixed t = if is_empty t then err session_token_required else ok (session_token_prefix ++ t)

prefixed-ok : (v : Token) → is_empty v ≡ false → prefixed v ≡ ok (session_token_prefix ++ v)
prefixed-ok v h = rw h refl

normalize-prefixed :
    (v : Token)
    → is_empty v ≡ false
    → IsBare v
    → normalize_session_token (session_token_prefix ++ v) ≡ ok (session_token_prefix ++ v)
unfolding normalize_session_token
normalize-prefixed v h bare =
    let once = trim-prefixed v h (trim-trim_right v bare.trimmed) in
    ap prefixed (
      ap (strip_prefixes (length (session_token_prefix ++ v))) once
      ∙ strip_prefixes-once (length (session_token_prefix ++ v)) v (omega arith) bare)
    ∙ prefixed-ok v h

-- A token that is normalized is itself normal: it is the prefix, once, before a token without it and
-- without spaces around it, and normalizing it again gives the same one.
pub normalize_session_token_idempotent :
    (t u : Token)
    → normalize_session_token t ≡ ok u
    → ((v : Token) × (u ≡ session_token_prefix ++ v) × (is_empty v ≡ false) × IsBare v)
      × (normalize_session_token u ≡ ok u)
unfolding normalize_session_token
normalize_session_token_idempotent t u h =
    let v = strip_prefixes (length t) (trim t) in
    let bare = strip_prefixes-IsBare (length t) (trim t) (length-trim t) (trim_idempotent t) in
    let done = given (is_empty v) (session_token_prefix ++ v) u h in
    (
      (v, sym done.1, done.0, bare),
      subst (λ x. normalize_session_token x ≡ ok x) done.1 (normalize-prefixed v done.0 bare),
    )
