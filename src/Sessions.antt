-- ===== src/Sessions.antt =====
-- internal/sessions: the history of a conversation, rebuilt from the stored responses. JSON items are
-- `Json`; an `any` that is a map is an `object`.
pub mod Chain
pub mod History
pub mod Reconstruct
pub mod Service
mod Tests
use byos.Prelude.{
  ℕ, zero, suc, ◌+◌, ◌*◌, String, Bool, true, false, not, Option, none, some, List, [], ◌∷◌, ◌++◌,
  length, ltb, ◌==◌, str_eq, ◌&&◌, ◌||◌, if◌then◌else◌,
}
use byos.Time.{second}
use byos.Json.{
  Json, null, boolean, number, text, array, object, Items, Fields, empty, field, to_list, of_list,
  get_field, set_field, delete_field, as_text, Codec,
}
use byos.Store.Responses
use byos.Store.Responses.{Row, Cipher, ResponseSession}

abbrev pub max_chain_nodes : ℕ
max_chain_nodes = 256

abbrev pub max_chain_bytes : ℕ
max_chain_bytes = 64 * 1048576

pub data Error : Type 0 where
  previous_response_not_found context_length_exceeded : Error
  invalid : String → Error

pub data Result {ℓ} (A : Type ℓ) : Type ℓ where
  err : Error → Result A
  ok : A → Result A

-- A step that follows only a success.
abbrev pub ◌>>=◌ {ℓ κ} : {A : Type ℓ} {B : Type κ} → Result A → (A → Result B) → Result B
err problem >>= next = err problem
ok a >>= next = next a

infixl 5 ◌>>=◌
pub record Reconstruction : Type 0 where
  pub body : String
  pub preferred_account_id : String

pub record HistoryBuilder : Type 0 where
  pub items : List Fields
  pub references : String → Option Fields
  pub encoded_bytes : ℕ

unfoldable pub new_history_builder : HistoryBuilder
new_history_builder = record { items = []; references = λ _. none; encoded_bytes = 2 }

abbrev pub kind_of : Fields → String
kind_of item = as_text (get_field "type" item)

abbrev pub id_of : Fields → String
id_of item = as_text (get_field "id" item)

abbrev pub is_continuity_kind : String → Bool
is_continuity_kind kind =
    str_eq kind "message"
    || (str_eq kind "function_call"
        || (str_eq kind "function_call_output" || str_eq kind "reasoning"))

resolved_or : Option Fields → Result Fields
resolved_or none = err previous_response_not_found
resolved_or (some item) = ok item

-- A reference gives way to the item that it names.
resolve : HistoryBuilder → Fields → Result Fields
unfolding resolved_or
resolve b item =
    if str_eq (kind_of item) "item_reference"
    then resolved_or (b.references (as_text (get_field "item_id" item)))
    else ok item

abbrev pub refer : Fields → (String → Option Fields) → String → Option Fields
refer item m k = if not (str_eq (id_of item) "") && str_eq k (id_of item) then some item else m k

is_empty : List Fields → Bool
is_empty [] = true
is_empty (x ∷ xs) = false

module _ (codec : Codec) where
  -- The bytes that an item adds: its encoding, and a comma unless it is the first.
  abbrev pub item_bytes : Fields → ℕ
  item_bytes item = codec.bytes (codec.marshal (object item))

  keep : HistoryBuilder → Fields → Result HistoryBuilder
  unfolding is_empty
  keep b item =
      let additional = if is_empty b.items then item_bytes item else suc (item_bytes item) in
      if ltb max_chain_bytes (b.encoded_bytes + additional)
      then err context_length_exceeded
      else ok (record {
        items = b.items ++ (item ∷ []);
        references = refer item b.references;
        encoded_bytes = b.encoded_bytes + additional;
      })

  append_resolved : Bool → HistoryBuilder → Fields → Result HistoryBuilder
  unfolding keep
  append_resolved strict b item =
      if is_continuity_kind (kind_of item)
      then keep b item
      else if strict
      then err (invalid "unsupported canonical continuity item")
      else ok b

  -- One round of the loop of `append`.
  append_one : Bool → HistoryBuilder → Json → Result HistoryBuilder
  unfolding resolve append_resolved
  append_one strict b (object item) = resolve b item >>= append_resolved strict b
  append_one strict b _ = err (invalid "invalid canonical continuity item")

  unfoldable pub append : Bool → HistoryBuilder → List Json → Result HistoryBuilder
  unfolding append_one
  append strict b [] = ok b
  append strict b (j ∷ js) = append_one strict b j >>= λ b'. append strict b' js

  unfoldable pub input_items : Option Json → Result (List Json)
  input_items none = ok []
  input_items (some null) = ok []
  input_items (some (text s)) = ok (
      object (
        field "type" (text "message") (field "role" (text "user") (field "content" (text s) empty)))
      ∷ [])
  input_items (some (array items)) = ok (to_list items)
  input_items (some _) = err (invalid "invalid canonical input")

  -- Unmarshal into a map: null leaves the nil map, which has no keys.
  unfoldable pub as_map : Option Json → Result (Option Fields)
  as_map (some null) = ok none
  as_map (some (object fields)) = ok (some fields)
  as_map _ = err (invalid "invalid canonical request")

  abbrev pub field_of : String → Option Fields → Option Json
  field_of k none = none
  field_of k (some fields) = get_field k fields

  unfoldable pub extract_input : String → Result (List Json)
  unfolding as_map input_items
  extract_input raw =
      as_map (codec.unmarshal raw) >>= λ request. input_items (field_of "input" request)

  output_items : Option Json → List Json
  output_items (some (array items)) = to_list items
  output_items _ = []

  unfoldable pub extract_output : String → Result (List Json)
  unfolding as_map output_items
  extract_output raw =
      as_map (codec.unmarshal raw) >>= λ response. ok (output_items (field_of "output" response))

  abbrev pub objects : List Fields → List Json
  objects [] = []
  objects (f ∷ fs) = object f ∷ objects fs

  -- A history with no items is a nil slice, which is encoded as null.
  abbrev pub input_of : List Fields → Json
  input_of [] = null
  input_of (item ∷ items) = array (of_list (objects (item ∷ items)))

  -- The request with the whole history as its input.
  abbrev pub with_history : Fields → HistoryBuilder → Fields
  with_history request b =
      set_field "store" (boolean false)
        (delete_field "previous_response_id" (set_field "input" (input_of b.items) request))

  encode : Fields → Result Reconstruction
  encode request =
      let body = codec.marshal (object request) in
      if ltb max_chain_bytes (codec.bytes body)
      then err context_length_exceeded
      else ok (record { body = body; preferred_account_id = "" })

  require : Option Fields → Result Fields
  require none = err (invalid "invalid canonical request")
  require (some request) = ok request

  unfoldable pub normalize_current : String → HistoryBuilder → Result Reconstruction
  unfolding as_map require input_items encode
  normalize_current current b = as_map (codec.unmarshal current) >>= require >>= λ request.
      input_items (get_field "input" request) >>= append true b >>= λ b'.
      encode (with_history request b')

-- The loop over the links, with the rounds that `len(reverseIDs)` leaves and the IDs so far, the last
-- one first, which is the order in which the nodes are read afterwards.
module _ (get_link : String → Option (String × String)) where
  abbrev pub is_member : String → List String → Bool
  is_member id [] = false
  is_member id (x ∷ xs) = str_eq x id || is_member id xs

  follow :
      Option (String × String)
      → (String × String → Result (List String × String))
      → Result (List String × String)
  follow none next = err previous_response_not_found
  follow (some link) next = next link

  unfoldable pub walk : ℕ → List String → String → String → Result (List String × String)
  unfolding follow
  walk zero ids preferred id =
      if str_eq id "" then ok (ids, preferred) else err context_length_exceeded
  walk (suc rounds) ids preferred id =
      let next = λ (link : String × String).
        walk rounds (id ∷ ids) (if length ids == 0 then link.1 else preferred) link.0 in
      if str_eq id ""
      then ok (ids, preferred)
      else if is_member id ids
      then err context_length_exceeded
      else follow (get_link id) next

module _ (codec : Codec) (cipher : Cipher) where
  node_found : Responses.Result ResponseSession → Result ResponseSession
  node_found (Responses.ok node) = ok node
  node_found (Responses.err Responses.no_rows) = err previous_response_not_found
  node_found (Responses.err _) = err (invalid "stored response")

  append_node : HistoryBuilder → ResponseSession → Result HistoryBuilder
  unfolding append extract_input extract_output
  append_node b node = extract_input codec node.input >>= append codec true b >>= λ b'.
      extract_output codec node.output >>= append codec false b'

  unfoldable pub append_nodes : ℕ → List Row → HistoryBuilder → List String → Result HistoryBuilder
  unfolding node_found append_node
  append_nodes now rows b [] = ok b
  append_nodes now rows b (id ∷ ids) =
      node_found (Responses.get cipher id now rows) >>= append_node b >>= λ b'.
      append_nodes now rows b' ids

  -- The reconstruction with a previous response.
  unfoldable pub reconstruct_after : List Row → String → String → ℕ → Result Reconstruction
  reconstruct_after rows current previous_id now =
      walk (λ id. Responses.get_link id now rows) max_chain_nodes [] "" previous_id >>= λ p.
      append_nodes now rows new_history_builder p.0 >>= normalize_current codec current >>= λ r.
      ok (record r { preferred_account_id = p.1 })

  unfoldable pub reconstruct : List Row → String → String → ℕ → Result Reconstruction
  reconstruct rows current previous_id now =
      if str_eq previous_id ""
      then normalize_current codec current new_history_builder
      else reconstruct_after rows current previous_id now
