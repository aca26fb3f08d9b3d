-- ===== src/Sessions/History/Nodes.antt =====
-- What the stored responses that `Reconstruct` (internal/sessions/reconstruct.go) reads add to a history.
use mathlib.Core.Path.{subst}
use byos.Prelude.{ℕ, ◌≡◌, ap, String, true, false, List, [], ◌∷◌, arith}
use byos.Json.{Json, Fields, Codec}
use byos.Store.Responses
use byos.Store.Responses.{Row, Cipher, ResponseSession}
use byos.Sessions.{
  Result, ok, ◌>>=◌, HistoryBuilder, append, extract_input, extract_output, node_found, append_node,
  append_nodes,
}
use byos.Sessions.History.{>>=-ok, IsHistory, append-IsHistory}
use byos.Sessions.History.Gathered.{Appended, Refers, append-Appended}

module _ (codec : Codec) (cipher : Cipher) where
  -- The items of the stored responses with the given IDs, one after the other: of each the items of its
  -- input, and after them those of its output that are of a kind that is kept.
  pub data Gathered (now : ℕ) (rows : List Row)
      : List String → List Fields → List Fields → Type 0 where
    none_left : (h : List Fields) → Gathered now rows [] h h
    stored :
        {h h' h'' k : List Fields} (id : String) (ids : List String) (n : ResponseSession)
        (inputs outputs : List Json)
        → Responses.get cipher id now rows ≡ Responses.ok n
        → extract_input codec n.input ≡ ok inputs
        → Appended true h inputs h'
        → extract_output codec n.output ≡ ok outputs
        → Appended false h' outputs h''
        → Gathered now rows ids h'' k
        → Gathered now rows (id ∷ ids) h k

  node_found-ok :
      (r : Responses.Result ResponseSession) (n : ResponseSession)
      → node_found codec cipher r ≡ ok n
      → r ≡ Responses.ok n
  unfolding node_found
  node_found-ok (Responses.ok x) n h = ap (λ y. Responses.ok y) (same h)
    where
      same : {x y : ResponseSession} → ◌≡◌ {A = Result ResponseSession} (ok x) (ok y) → x ≡ y
      same q = cc
  node_found-ok (Responses.err e) n h = absurd (ground arith)

  pub append_nodes-Gathered :
      (now : ℕ) (rows : List Row) (ids : List String) (b b' : HistoryBuilder)
      → Refers b
      → append_nodes codec cipher now rows b ids ≡ ok b'
      → Refers b' × Gathered now rows ids b.items b'.items
  unfolding append_nodes append_node
  append_nodes-Gathered now rows [] b b' v h = (
    subst Refers (same h) v,
    subst (λ x. Gathered now rows [] b.items x.items) (same h) (none_left b.items),
  )
    where
      same : {x y : HistoryBuilder} → ◌≡◌ {A = Result HistoryBuilder} (ok x) (ok y) → x ≡ y
      same q = cc
  append_nodes-Gathered now rows (id ∷ ids) b b' v h =
      let (c, one, rest) =
        >>=-ok
          (node_found codec cipher (Responses.get cipher id now rows)
            >>= append_node codec cipher b)
          _ h in
      let (n, found, grown) =
        >>=-ok (node_found codec cipher (Responses.get cipher id now rows))
          (append_node codec cipher b) one in
      let (d, first, second) =
        >>=-ok (extract_input codec n.input >>= append codec true b) _ grown in
      let (inputs, read, taken) =
        >>=-ok (extract_input codec n.input) (append codec true b) first in
      let (outputs, read', taken') =
        >>=-ok (extract_output codec n.output) (append codec false d) second in
      let (w, with_inputs) = append-Appended codec true inputs b d v taken in
      let (w', with_outputs) = append-Appended codec false outputs d c w taken' in
      let (w'', others) = append_nodes-Gathered now rows ids c b' w' rest in
      (
        w'',
        stored id ids n inputs outputs (node_found-ok (Responses.get cipher id now rows) n found)
            read with_inputs read' with_outputs others,
      )

  append_node-IsHistory :
      (b b' : HistoryBuilder) (node : ResponseSession)
      → IsHistory codec b
      → append_node codec cipher b node ≡ ok b'
      → IsHistory codec b'
  unfolding append_node
  append_node-IsHistory b b' node v h =
      let (c, first, h1) = >>=-ok (extract_input codec node.input >>= append codec true b) _ h in
      let (inputs, read, grown) =
        >>=-ok (extract_input codec node.input) (append codec true b) first in
      let (outputs, read', grown') =
        >>=-ok (extract_output codec node.output) (append codec false c) h1 in
      append-IsHistory codec false outputs c b' (append-IsHistory codec true inputs b c v grown)
        grown'

  pub append_nodes-IsHistory :
      (now : ℕ) (rows : List Row) (ids : List String) (b b' : HistoryBuilder)
      → IsHistory codec b
      → append_nodes codec cipher now rows b ids ≡ ok b'
      → IsHistory codec b'
  unfolding append_nodes
  append_nodes-IsHistory now rows [] b b' v h = subst (IsHistory codec) (same h) v
    where
      same : {x y : HistoryBuilder} → ◌≡◌ {A = Result HistoryBuilder} (ok x) (ok y) → x ≡ y
      same q = cc
  append_nodes-IsHistory now rows (id ∷ ids) b b' v h =
      let (c, one, rest) =
        >>=-ok
          (node_found codec cipher (Responses.get cipher id now rows)
            >>= append_node codec cipher b)
          _ h in
      let (node, found, grown) =
        >>=-ok (node_found codec cipher (Responses.get cipher id now rows))
          (append_node codec cipher b) one in
      append_nodes-IsHistory now rows ids c b' (append_node-IsHistory b c node v grown) rest
