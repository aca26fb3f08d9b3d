-- ===== src/Sessions/Service.antt =====
-- internal/sessions/service.go. `previous_of` is what json.Unmarshal makes of a request with the one field
-- previous_response_id; `none` where it fails.
use mathlib.Core.Path.{subst}
use byos.Prelude.{
  ℕ, ◌+◌, ◌*◌, ◌<◌, ◌≡◌, refl, sym, ap, String, Bool, true, false, not, Option, none, some, List,
  ◌∷◌, str_eq, ◌||◌, if◌then◌else◌, str_ne, Bool-cases, inl, inr,
}
use byos.Time.{second, unix}
use byos.Json.{Codec}
use byos.Store.Responses
use byos.Store.Responses.{Row, Cipher, ResponseSession}
use byos.Store.Responses.Laws.{get_link-put, get_link-put_self}
use byos.Sessions.{Result, err, invalid, Reconstruction, reconstruct}
use byos.Sessions.Chain.{Chain, start, after, preferred_of, account_of}

abbrev pub retention : ℕ
retention = 30 * 24 * 3600 * second

pub record CompletedNode : Type 0 where
  pub response_id : String
  pub upstream_response_id : String
  pub previous_response_id : String
  pub model : String
  pub account_id : String
  pub canonical_input : String
  pub terminal_output : String
  -- A nil pointer is `none`.
  pub store : Option Bool

pub data PersistError : Type 0 where
  incomplete : PersistError
  store_failed : Responses.Error → PersistError

abbrev pub store_value : Option Bool → Bool
store_value none = true
store_value (some b) = b

module _ (codec : Codec) (cipher : Cipher) (previous_of : String → Option String) where
  prepare_after : List Row → String → ℕ → Option String → Result Reconstruction
  prepare_after rows body now none = err (invalid "request")
  prepare_after rows body now (some previous) = reconstruct codec cipher rows body previous now

  unfoldable pub prepare : List Row → String → ℕ → Result Reconstruction
  unfolding prepare_after
  prepare rows body now = prepare_after rows body now (previous_of body)

abbrev pub session_of : CompletedNode → ℕ → ResponseSession
session_of node now = record {
  response_id = node.response_id;
  upstream_response_id = node.upstream_response_id;
  previous_response_id = node.previous_response_id;
  model = node.model;
  preferred_account_id = node.account_id;
  input = node.canonical_input;
  output = node.terminal_output;
  store = true;
  created_at = now;
  expires_at = now + retention;
}

lifted : Option Responses.Error × List Row → Option PersistError × List Row
lifted (none, rows) = (none, rows)
lifted (some e, rows) = (some (store_failed e), rows)

unfoldable pub persist_completed :
    Cipher → CompletedNode → Bool → ℕ → List Row → Option PersistError × List Row
unfolding lifted
persist_completed cipher node terminal now rows =
    if not terminal || not (store_value node.store)
    then (none, rows)
    else if str_eq node.response_id "" || str_eq node.terminal_output ""
    then (some incomplete, rows)
    else lifted (Responses.put cipher (session_of node now) rows)

unfoldable pub cleanup : ℕ → List Row → ℕ × List Row
cleanup now = Responses.cleanup now

module _ (cipher : Cipher) (node : CompletedNode) (now : ℕ) (rows : List Row) where
  abbrev Stored : Type 0
  Stored =
      ((Responses.put cipher (session_of node now) rows).0 ≡ none)
      × ((persist_completed cipher node true now rows).1
          ≡ (Responses.put cipher (session_of node now) rows).1)
      × (str_eq node.response_id "" ≡ false)

  lifted-none :
      (p : Option Responses.Error × List Row)
      → (lifted p).0 ≡ none
      → (p.0 ≡ none) × ((lifted p).1 ≡ p.1)
  unfolding lifted
  lifted-none (none, rows) h = (refl, refl)
  lifted-none (some e, rows) h = absurd (cc)

  stored :
      store_value node.store ≡ true
      → (persist_completed cipher node true now rows).0 ≡ none
      → Stored
  unfolding persist_completed
  stored keep h = elim (Bool-cases (str_eq node.response_id "")) [
    | inl unnamed ↦ absurd (cc (rw (keep, unnamed) at h))
    | inr named ↦ elim (Bool-cases (str_eq node.terminal_output "")) [
      | inl blank ↦ absurd (cc (rw (keep, named, blank) at h))
      | inr output ↦
          let (done, same) =
            lifted-none (Responses.put cipher (session_of node now) rows)
              (rw (keep, named, output) at h) in
          (done, rw (keep, named, output) same, named)
    ]
  ]

  -- A chain of the table lasts.
  Chain-put :
      (later : ℕ) {id : String} {chain : List String}
      → (Responses.put cipher (session_of node now) rows).0 ≡ none
      → Chain (λ x. Responses.get_link x later rows) id chain
      → Chain
          (λ x. Responses.get_link x later (Responses.put cipher (session_of node now) rows).1)
          id
          chain
  Chain-put later h (start id e) = start id e
  Chain-put later h (after id p a ids ne l c) =
      after id p a ids ne (get_link-put cipher (session_of node now) rows id later (p, a) h l)
        (Chain-put later h c)

  -- When `PersistCompleted` succeeds for a terminal node that is to be stored, the node continues its
  -- conversation: at any time before the second in which its retention ends, the chain of its previous
  -- response, with the node at its end, is the chain of the node in the new table, and its account is
  -- the preferred one.
  pub persist_completed-Chain :
      (later : ℕ) (chain : List String)
      → store_value node.store ≡ true
      → (persist_completed cipher node true now rows).0 ≡ none
      → unix later < unix (now + retention)
      → Chain (λ x. Responses.get_link x later rows) node.previous_response_id chain
      → let links = λ (x : String).
        Responses.get_link x later (persist_completed cipher node true now rows).1 in
        Chain links node.response_id (node.response_id ∷ chain)
        × (preferred_of links (node.response_id ∷ chain) ≡ node.account_id)
  persist_completed-Chain later chain keep h soon c =
      let (done, same, named) = stored keep h in
      let found = get_link-put_self cipher (session_of node now) rows later done soon in
      let moved = λ (table : List Row). λ (x : String). Responses.get_link x later table in
      subst
        (λ table.
          Chain (moved table) node.response_id (node.response_id ∷ chain)
          × (preferred_of (moved table) (node.response_id ∷ chain) ≡ node.account_id))
        (sym same)
        (
          after node.response_id node.previous_response_id node.account_id chain
              (str_ne node.response_id "" named) found (Chain-put later done c),
          ap (account_of (moved (Responses.put cipher (session_of node now) rows).1)) found,
        )
