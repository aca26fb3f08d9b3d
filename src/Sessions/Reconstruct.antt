-- ===== src/Sessions/Reconstruct.antt =====
-- What `Reconstruct` (internal/sessions/reconstruct.go) makes of a request and its previous response.
use mathlib.Core.Path.{subst}
use byos.Prelude.{
  ℕ, ◌≤◌, ◌≡◌, ◌≢◌, refl, sym, ap, ◌∙◌, String, true, false, Option, none, some, List, [], ◌∷◌,
  length, ltb, str_eq, eq_iff, str_ne, ◌⊎◌, arith, Bool-cases, inl, inr,
}
use byos.Json.{
  Json, null, boolean, array, object, Fields, of_list, get_field, set_field, delete_field,
  get_field-set_field, get_field-set_field_other, get_field-delete_field,
  get_field-delete_field_other, Codec,
}
use byos.Store.Responses
use byos.Store.Responses.{Row, Cipher, ResponseSession}
use byos.Sessions.{
  Result, ok, ◌>>=◌, Reconstruction, HistoryBuilder, new_history_builder, max_chain_bytes,
  max_chain_nodes, append, as_map, require, input_items, objects, input_of, with_history, encode,
  normalize_current, walk, append_nodes, reconstruct_after, reconstruct,
}
use byos.Sessions.Chain.{Chain, preferred_of, rev_onto, walk-iff-Chain}
use byos.Sessions.History.Nodes.{Gathered, none_left, append_nodes-IsHistory, append_nodes-Gathered}
use byos.Sessions.History.Gathered.{Appended, Refers, new_history_builder-Refers, append-Appended}
use byos.Sessions.History.{>>=-ok, IsHistory, new_history_builder-IsHistory, append-IsHistory}

module _ (codec : Codec) where
  -- The body is that of the current request with the history for its input, not to be stored, and with no
  -- previous response; and it is within the limit. The history is `before` with the current input.
  pub record Rebuilt (before : List Fields) (current body : String) : Type 0 where
    pub request : Fields
    pub parsed : as_map codec (codec.unmarshal current) ≡ ok (some request)
    pub inputs : List Json
    pub read : input_items codec (get_field "input" request) ≡ ok inputs
    pub history : HistoryBuilder
    pub valid : IsHistory codec history
    pub appended : Appended true before inputs history.items
    pub result : Fields
    pub encoded : body ≡ codec.marshal (object result)
    pub bounded : codec.bytes body ≤ max_chain_bytes
    pub input :
        (history.items ≡ []) × (get_field "input" result ≡ some null)
        ⊎ ((x : Fields) × (xs : List Fields) × (history.items ≡ x ∷ xs)
            × (get_field "input" result ≡ some (array (of_list (objects codec (x ∷ xs))))))
    pub store : get_field "store" result ≡ some (boolean false)
    pub unlinked : get_field "previous_response_id" result ≡ none
    pub others :
        (k : String)
        → k ≢ "input"
        → k ≢ "store"
        → k ≢ "previous_response_id"
        → get_field k result ≡ get_field k request

  encode-ok :
      (fields : Fields) (r : Reconstruction)
      → encode codec fields ≡ ok r
      → (r.body ≡ codec.marshal (object fields))
        × (codec.bytes r.body ≤ max_chain_bytes)
        × (r.preferred_account_id ≡ "")
  unfolding encode
  encode-ok fields r h =
      elim (Bool-cases (ltb max_chain_bytes (codec.bytes (codec.marshal (object fields))))) [
        | inl over ↦ absurd (ground arith)
        | inr within ↦
            let same : record { body = codec.marshal (object fields); preferred_account_id = "" }
                ≡ r =
              same_result (rw within at h) in
            (
              ap (λ x. x.body) (sym same),
              subst (λ x. codec.bytes x.body ≤ max_chain_bytes) same (ground arith),
              ap (λ x. x.preferred_account_id) (sym same),
            )
      ]
    where
      same_result : {x y : Reconstruction} → ◌≡◌ {A = Result Reconstruction} (ok x) (ok y) → x ≡ y
      same_result q = cc

  input_of-cases :
      (items : List Fields) (result : Fields)
      → get_field "input" result ≡ some (input_of codec items)
      → (items ≡ []) × (get_field "input" result ≡ some null)
        ⊎ ((x : Fields) × (xs : List Fields) × (items ≡ x ∷ xs)
            × (get_field "input" result ≡ some (array (of_list (objects codec (x ∷ xs))))))
  input_of-cases [] result h = inl (refl, h)
  input_of-cases (x ∷ xs) result h = inr (x, xs, refl, h)

  rebuilt :
      (before : List Fields) (current : String) (request : Fields) (inputs : List Json)
      (b : HistoryBuilder) (r : Reconstruction)
      → as_map codec (codec.unmarshal current) ≡ ok (some request)
      → input_items codec (get_field "input" request) ≡ ok inputs
      → IsHistory codec b
      → Appended true before inputs b.items
      → encode codec (with_history codec request b) ≡ ok r
      → Rebuilt before current r.body
  rebuilt before current request inputs b r parsed read v appended h =
      let (body, bounded, _) = encode-ok (with_history codec request b) r h in
      let items = input_of codec b.items in
      let linked = set_field "input" items request in
      record {
        request = request;
        parsed = parsed;
        inputs = inputs;
        read = read;
        history = b;
        valid = v;
        appended = appended;
        result = with_history codec request b;
        encoded = body;
        bounded = bounded;
        input = input_of-cases b.items (with_history codec request b) (
            get_field-set_field_other "store" "input" (boolean false)
              (delete_field "previous_response_id" linked) (str_ne "store" "input" refl)
            ∙ get_field-delete_field_other "previous_response_id" "input" linked
                (str_ne "previous_response_id" "input" refl)
            ∙ get_field-set_field "input" items request);
        store =
            get_field-set_field "store" (boolean false)
              (delete_field "previous_response_id" linked);
        unlinked =
            get_field-set_field_other "store" "previous_response_id" (boolean false)
              (delete_field "previous_response_id" linked)
              (str_ne "store" "previous_response_id" refl)
            ∙ get_field-delete_field "previous_response_id" linked;
        others = λ k i s p.
            get_field-set_field_other "store" k (boolean false)
              (delete_field "previous_response_id" linked) (λ e. s (sym e))
            ∙ get_field-delete_field_other "previous_response_id" k linked (λ e. p (sym e))
            ∙ get_field-set_field_other "input" k items request (λ e. i (sym e));
      }

  require-ok :
      (o : Option Fields) (request : Fields) → require codec o ≡ ok request → o ≡ some request
  unfolding require
  require-ok none request h = absurd (cc)
  require-ok (some x) request h = ap some (same h)
    where
      same : {x y : Fields} → ◌≡◌ {A = Result Fields} (ok x) (ok y) → x ≡ y
      same q = cc

  normalize_current-Rebuilt :
      (current : String) (b : HistoryBuilder) (r : Reconstruction)
      → IsHistory codec b
      → Refers b
      → normalize_current codec current b ≡ ok r
      → Rebuilt b.items current r.body × (r.preferred_account_id ≡ "")
  unfolding normalize_current
  normalize_current-Rebuilt current b r v refers h =
      let (request, parsed, h1) =
        >>=-ok (as_map codec (codec.unmarshal current) >>= require codec) _ h in
      let (o, mapped, required) =
        >>=-ok (as_map codec (codec.unmarshal current)) (require codec) parsed in
      let (b', appended, encoded) =
        >>=-ok (input_items codec (get_field "input" request) >>= append codec true b) _ h1 in
      let (items, listed, grown) =
        >>=-ok (input_items codec (get_field "input" request)) (append codec true b) appended in
      let (_, _, unpreferred) = encode-ok (with_history codec request b') r encoded in
      (
        rebuilt b.items current request items b' r (mapped ∙ ap ok (require-ok o request required))
            listed (append-IsHistory codec true items b b' v grown)
            (append-Appended codec true items b b' refers grown).1 encoded,
        unpreferred,
      )

  module _ (cipher : Cipher) where
    -- A reconstruction follows the chain of the previous response, if there is one, and gathers the items
    -- of its responses, the oldest first.
    pub record Follows (rows : List Row) (previous_id : String) (now : ℕ) (r : Reconstruction)
        : Type 0 where
      pub chain : List String
      pub links : Chain (λ id. Responses.get_link id now rows) previous_id chain
      pub short : length chain ≤ 256
      pub preferred :
          r.preferred_account_id ≡ preferred_of (λ id. Responses.get_link id now rows) chain
      pub before : List Fields
      pub gathered : Gathered codec cipher now rows (rev_onto chain []) [] before

    followed :
        (rows : List Row) (current previous_id : String) (now : ℕ) (r : Reconstruction)
        → reconstruct_after codec cipher rows current previous_id now ≡ ok r
        → (f : Follows rows previous_id now r) × Rebuilt f.before current r.body
    unfolding reconstruct_after new_history_builder
    followed rows current previous_id now r h =
        let links = λ (id : String). Responses.get_link id now rows in
        let ((ids, account), walked, h1) =
          >>=-ok (walk links max_chain_nodes [] "" previous_id) _ h in
        let (x, made, named) =
          >>=-ok
            (append_nodes codec cipher now rows new_history_builder ids
              >>= normalize_current codec current)
            _ h1 in
        let (b, nodes, normal) =
          >>=-ok (append_nodes codec cipher now rows new_history_builder ids)
            (normalize_current codec current) made in
        let (chain, c, short, ordered, picked) =
          (walk-iff-Chain links previous_id ids account).0 walked in
        let same : record x { preferred_account_id = account } ≡ r = same_result named in
        let valid =
          append_nodes-IsHistory codec cipher now rows ids new_history_builder b
            (new_history_builder-IsHistory codec) nodes in
        let (refers, items) =
          append_nodes-Gathered codec cipher now rows ids new_history_builder b
            new_history_builder-Refers nodes in
        (
          record {
            chain = chain;
            links = c;
            short = short;
            preferred = ap (λ y. y.preferred_account_id) (sym same) ∙ picked;
            before = b.items;
            gathered = subst (λ l. Gathered codec cipher now rows l [] b.items) ordered items;
          },
          subst (λ y. Rebuilt b.items current y.body) same
              (normalize_current-Rebuilt current b x valid refers normal).0,
        )
      where
        same_result : {x y : Reconstruction} → ◌≡◌ {A = Result Reconstruction} (ok x) (ok y) → x ≡ y
        same_result q = cc

    -- When `Reconstruct` returns a reconstruction, the previous response begins a chain of at most 256
    -- stored responses, and the preferred account is that of its last one (none without a chain); the
    -- history has the items of the stored responses of the chain, the oldest first, of each the input before
    -- the output, and after them the items of the current input; a reference among them gives way to the
    -- latest item before it with its ID; only messages, function calls, their outputs and reasoning are
    -- kept, anything else occurs only in an output and is left out, and the history is at most 64 MiB long
    -- as an array; the body is the encoding, of at most 64 MiB, of the current request with the history for
    -- its input (null if it is empty), with no previous response, not to be stored, and with all else as it
    -- was.
    pub reconstruct_lem :
        (rows : List Row) (current previous_id : String) (now : ℕ) (r : Reconstruction)
        → reconstruct codec cipher rows current previous_id now ≡ ok r
        → (f : Follows rows previous_id now r) × Rebuilt f.before current r.body
    unfolding reconstruct new_history_builder
    reconstruct_lem rows current previous_id now r h = elim (Bool-cases (str_eq previous_id "")) [
      | inl first ↦
          let (built, unpreferred) =
            normalize_current-Rebuilt current new_history_builder r
              (new_history_builder-IsHistory codec) new_history_builder-Refers (rw first at h) in
          (
            record {
              chain = [];
              links = Chain.start previous_id ((eq_iff previous_id "").0 first);
              short = omega arith;
              preferred = unpreferred;
              before = [];
              gathered = none_left [];
            },
            built,
          )
      | inr later ↦ followed rows current previous_id now r (rw later at h)
    ]
