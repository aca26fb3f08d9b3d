-- ===== src/Sessions/Tests.antt =====
-- A conversation of two stored responses, and a third request. A text stands for itself as JSON.
use byos.Prelude.{
  ℕ, ◌*◌, ◌≤◌, ◌≡◌, refl, sym, String, true, Option, none, some, List, [], ◌∷◌, length, str_eq,
  str_ne, if◌then◌else◌, arith, ◌↔◌,
}
use byos.Time.{second, of_unix}
use byos.Json.{Json, text, array, object, field, empty, item, end, Codec}
use byos.Store.Responses
use byos.Store.Responses.{Row, Cipher, ResponseSession, find_row}
use byos.Store.Responses.Laws.{get-put}
use byos.Sessions.{
  Reconstruction, ok, reconstruct, reconstruct_after, walk, append_nodes, normalize_current,
  new_history_builder, max_chain_nodes,
}
use byos.Sessions.Chain.{Chain, start, after, rev_onto, preferred_of, walk-iff-Chain}
use byos.Sessions.Reconstruct.{Rebuilt, Follows, reconstruct_lem}
use byos.Sessions.Service.{CompletedNode, persist_completed, persist_completed-Chain}

abbrev codec : Codec
codec = record {
  unmarshal = λ s.
      if str_eq s "in"
      then some (object (field "input" (text "hello") empty))
      else if str_eq s "out"
      then some (
          object (
            field "output" (array (item (object (field "type" (text "message") empty)) end)) empty))
      else none;
  marshal = λ j. "encoded";
  bytes = λ s. 7;
}

abbrev cipher : Cipher
cipher = record { encrypt = λ s. some s; decrypt = λ s. some s }

abbrev row : String → Option String → Row
row id previous = record {
  response_id = id;
  upstream_response_id = none;
  previous_response_id = previous;
  model = "grok-4.5";
  preferred_account_id = some "a";
  input_encrypted = "in";
  output_encrypted = "out";
  store = true;
  created_at = 10;
  expires_at = 9000000;
}

abbrev rows : List Row
rows = row "r2" (some "r1") ∷ row "r1" none ∷ []

abbrev now : ℕ
now = 20 * second

abbrev links : String → Option (String × String)
links id = Responses.get_link id now rows

chained : Chain links "r2" ("r2" ∷ "r1" ∷ [])
unfolding Responses.get_link find_row
chained =
    after "r2" "r1" "a" ("r1" ∷ []) (str_ne "r2" "" refl) refl
      (after "r1" "" "a" [] (str_ne "r1" "" refl) refl (start "" refl))

walk-iff-Chain_example : (walk links max_chain_nodes [] "" "r2" ≡ ok ("r1" ∷ "r2" ∷ [], "a")) ↔ (
    (chain : List String) × Chain links "r2" chain
    × (length chain ≤ 256)
    × (◌≡◌ {A = List String} ("r1" ∷ "r2" ∷ []) (rev_onto chain []))
    × (◌≡◌ {A = String} "a" (preferred_of links chain)))
walk-iff-Chain_example = walk-iff-Chain links "r2" ("r1" ∷ "r2" ∷ []) "a"

abbrev rebuilt : Reconstruction
rebuilt = record { body = "encoded"; preferred_account_id = "a" }

reconstructed : reconstruct codec cipher rows "in" "r2" now ≡ ok rebuilt
unfolding reconstruct reconstruct_after walk append_nodes Responses.get_link Responses.get
    byos.Json.get_field new_history_builder byos.Json.to_list normalize_current
reconstructed = refl

reconstruct_lem_example :
    (f : Follows codec cipher rows "r2" now rebuilt) × Rebuilt codec f.before "in" "encoded"
reconstruct_lem_example = reconstruct_lem codec cipher rows "in" "r2" now rebuilt reconstructed

abbrev node : CompletedNode
node = record {
  response_id = "r3";
  upstream_response_id = "";
  previous_response_id = "r2";
  model = "grok-4.5";
  account_id = "b";
  canonical_input = "in";
  terminal_output = "out";
  store = none;
}

persisted : (persist_completed cipher node true now rows).0 ≡ none
unfolding persist_completed Responses.put
persisted = refl

persist_completed-Chain_example :
    let links =
      λ (x : String). Responses.get_link x now (persist_completed cipher node true now rows).1 in
    Chain links "r3" ("r3" ∷ "r2" ∷ "r1" ∷ [])
    × (preferred_of links ("r3" ∷ "r2" ∷ "r1" ∷ []) ≡ "b")
persist_completed-Chain_example =
    persist_completed-Chain cipher node now rows now ("r2" ∷ "r1" ∷ []) refl persisted (omega arith)
      chained

abbrev session : ResponseSession
session = record {
  response_id = "r4";
  upstream_response_id = "u";
  previous_response_id = "r2";
  model = "grok-4.5";
  preferred_account_id = "a";
  input = "in";
  output = "out";
  store = true;
  created_at = now;
  expires_at = 40 * second;
}

put_done : (Responses.put cipher session rows).0 ≡ none
unfolding Responses.put
put_done = refl

get-put_example :
    (Responses.get cipher "r4" now (Responses.put cipher session rows).1
      ≡ Responses.ok (record session { created_at = of_unix 20; expires_at = of_unix 40 }))
    × (Responses.get_link "r4" now (Responses.put cipher session rows).1 ≡ some ("r2", "a"))
get-put_example = get-put cipher (λ s t h. sym h) session rows now put_done (omega arith)
