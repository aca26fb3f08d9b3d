-- ===== src/Devin/StreamMapper/Refinement.antt =====
-- The reader of the events of a mapper knows what the mapper knows.
use byos.Prelude.{
  ℕ, ◌==◌, ◌≡◌, refl, sym, ap, ◌∙◌, String, Bool, true, false, not, Option, none, some, List, [],
  ◌∷◌, ◌++◌, map, str_eq, str_eq_refl, ◌&&◌, if◌then◌else◌, ==_iff, Bool-cases, inl, inr,
}
use byos.Devin.Frames.{
  Text, message, Payload, created, reasoning_delta, text_delta, item_added, arguments_delta,
  arguments_done, item_done, finished, Event,
}
use byos.Devin.StreamMapper.{
  MappedTool, StreamMapper, find_tool, replace_tool, with_tool, reasoning_item, call_item, new_tool,
}
use byos.Devin.StreamMapper.Sections.{one, bump, IsStable, here_tool, skip_tool}
use byos.Devin.StreamMapper.Client.{
  Client, text_eq, index_eq, check, on_call, on_new, accept_item, accept_open, accept, receive,
  and_receive, receive_all, receive_all-append,
}

-- The tool as its events show it.
abbrev pub shown : MappedTool → MappedTool
shown t = record t { done = false }

abbrev pub client : StreamMapper → Client
client m = record {
  started = m.created;
  finished = m.terminal;
  next = m.sequence_number;
  thinking = m.thinking;
  text = m.text;
  calls = map shown m.tools;
}

pub text_eq_refl : (t : Text) → text_eq t t ≡ true
text_eq_refl [] = refl
text_eq_refl (x ∷ xs) = rw ((==_iff x x).1 refl, text_eq_refl xs) refl

shown_option : Option MappedTool → Option MappedTool
shown_option none = none
shown_option (some t) = some (shown t)

find_tool-map :
    (id : String) (ts : List MappedTool)
    → find_tool id (map shown ts) ≡ shown_option (find_tool id ts)
unfolding find_tool shown_option
find_tool-map id [] = refl
find_tool-map id (t ∷ ts) = elim (Bool-cases (str_eq t.id id)) [
  | inl e ↦ rw e refl
  | inr e ↦ rw e (find_tool-map id ts)
]

replace_tool-map :
    (t : MappedTool) (ts : List MappedTool)
    → replace_tool (shown t) (map shown ts) ≡ map shown (replace_tool t ts)
unfolding replace_tool
replace_tool-map t [] = refl
replace_tool-map t (u ∷ us) = elim (Bool-cases (str_eq u.id t.id)) [
  | inl e ↦ rw e refl
  | inr e ↦ rw (e, replace_tool-map t us) refl
]

replace_tool-done :
    (t : MappedTool) (ts : List MappedTool)
    → find_tool t.id ts ≡ some t
    → map shown (replace_tool (record t { done = true }) ts) ≡ map shown ts
unfolding find_tool replace_tool
replace_tool-done t [] h = refl
replace_tool-done t (u ∷ us) h = elim (Bool-cases (str_eq u.id t.id)) [
  | inl e ↦ rw e (ap (λ x. shown x ∷ map shown us) (sym (here_tool t.id u us e h)))
  | inr e ↦ rw (e, replace_tool-done t us (skip_tool t.id u us e h)) refl
]

map-entered :
    (t : MappedTool) (ts : List MappedTool)
    → map shown (ts ++ (t ∷ [])) ≡ map shown ts ++ (shown t ∷ [])
map-entered t [] = refl
map-entered t (u ∷ us) = rw (map-entered t us) refl

-- From a mapper that has started and not ended, the reader takes the events, and ends as the mapper does.
pub record Accepted (m : StreamMapper) (es : List Event) (n : StreamMapper) : Type 0 where
  pub is_created : n.created ≡ true
  pub is_open : n.terminal ≡ false
  pub taken : receive_all es (client m) ≡ some (client n)

abbrev pub Accepts : StreamMapper → List Event → StreamMapper → Type 0
Accepts m es n = m.created ≡ true → m.terminal ≡ false → Accepted m es n

no_second :
    (id model : String) (c : Client) {d : Client} → accept_open (created id model) c ≡ some d → ⊥
unfolding accept_open
no_second id model c h = cc

and_receive-some : (o : Option Client) → and_receive (λ c. some c) o ≡ o
and_receive-some none = refl
and_receive-some (some c) = refl

gate :
    (a b : Bool) (o : Option Client) → a ≡ true → b ≡ false → (if a && not b then o else none) ≡ o
gate true false o ha hb = refl
gate true true o ha hb = absurd (cc)
gate false b o ha hb = absurd (cc)

accept-accept_open :
    (p : Payload) (c : Client) {d : Client}
    → c.started ≡ true
    → c.finished ≡ false
    → accept_open p c ≡ some d
    → accept p c ≡ some d
unfolding accept
accept-accept_open (created id model) c hs hf h = absurd (no_second id model c h)
accept-accept_open (reasoning_delta delta) c hs hf h =
    gate c.started c.finished (accept_open (reasoning_delta delta) c) hs hf ∙ h
accept-accept_open (text_delta delta) c hs hf h =
    gate c.started c.finished (accept_open (text_delta delta) c) hs hf ∙ h
accept-accept_open (item_added i id name) c hs hf h =
    gate c.started c.finished (accept_open (item_added i id name) c) hs hf ∙ h
accept-accept_open (arguments_delta i id t) c hs hf h =
    gate c.started c.finished (accept_open (arguments_delta i id t) c) hs hf ∙ h
accept-accept_open (arguments_done i id t) c hs hf h =
    gate c.started c.finished (accept_open (arguments_done i id t) c) hs hf ∙ h
accept-accept_open (item_done i item) c hs hf h =
    gate c.started c.finished (accept_open (item_done i item) c) hs hf ∙ h
accept-accept_open (finished r) c hs hf h =
    gate c.started c.finished (accept_open (finished r) c) hs hf ∙ h

-- The number is the one that the reader waits for.
pub receive-next :
    (m : StreamMapper) (p : Payload) → receive_all (one p m) (client m) ≡ accept p (client (bump m))
unfolding receive_all receive
receive-next m p =
    rw ((==_iff m.sequence_number m.sequence_number).1 refl)
      (and_receive-some (accept p (client (bump m))))

pub receive-one :
    (m : StreamMapper) (p : Payload) {c : Client}
    → m.created ≡ true
    → m.terminal ≡ false
    → accept_open p (client (bump m)) ≡ some c
    → receive_all (one p m) (client m) ≡ some c
receive-one m p hc ht h = receive-next m p ∙ accept-accept_open p (client (bump m)) hc ht h

found_client :
    (t : MappedTool) (m : StreamMapper)
    → find_tool t.id m.tools ≡ some t
    → find_tool t.id (map shown m.tools) ≡ some (shown t)
unfolding shown_option
found_client t m h = find_tool-map t.id m.tools ∙ ap shown_option h

both : {a b : Bool} → a ≡ true → b ≡ true → (a && b) ≡ true
both {a} {b} ha hb = rw (ha, hb) refl

same_index : (i : ℕ) → (i == i) ≡ true
same_index i = (==_iff i i).1 refl

checked : (b : Bool) (c : Client) → b ≡ true → check b c ≡ some c
checked true c h = refl
checked false c h = absurd (cc)

added_delta :
    (m : StreamMapper) (t : MappedTool) (delta : Text)
    → find_tool t.id m.tools ≡ some t
    → accept_open (arguments_delta t.output_index t.id delta) (client (bump m))
      ≡ some (client (bump (with_tool (record t { arguments = t.arguments ++ delta }) m)))
unfolding accept_open
added_delta m t delta h =
    let u = record t { arguments = t.arguments ++ delta } in
    let next = λ (x : MappedTool). record (client (bump m)) {
      calls = replace_tool (record x { arguments = x.arguments ++ delta }) (map shown m.tools);
    } in
    ap (on_call (λ x. x.output_index == t.output_index) next) (found_client t m h)
    ∙ checked (t.output_index == t.output_index) (next (shown t)) (same_index t.output_index)
    ∙ ap (λ ts. some (record (client (bump m)) { calls = ts })) (replace_tool-map u m.tools)

declared :
    (m : StreamMapper) (t : MappedTool)
    → find_tool t.id m.tools ≡ some t
    → accept_open (arguments_done t.output_index t.id t.arguments) (client (bump m))
      ≡ some (client (bump m))
unfolding accept_open
declared m t h =
    ap
      (on_call (λ x. x.output_index == t.output_index && text_eq x.arguments t.arguments)
        (λ x. client (bump m)))
      (found_client t m h)
    ∙ checked (t.output_index == t.output_index && text_eq t.arguments t.arguments)
        (client (bump m)) (both (same_index t.output_index) (text_eq_refl t.arguments))

completed_call :
    (m : StreamMapper) (t : MappedTool)
    → find_tool t.id m.tools ≡ some t
    → accept_open (item_done (some t.output_index) (call_item t)) (client (bump m))
      ≡ some (client (bump m))
unfolding accept_open accept_item
completed_call m t h =
    ap
      (on_call
        (λ x.
          index_eq (some t.output_index) x.output_index
          && (str_eq x.name t.name && text_eq x.arguments t.arguments))
        (λ x. client (bump m)))
      (found_client t m h)
    ∙ checked
        (t.output_index == t.output_index
          && (str_eq t.name t.name && text_eq t.arguments t.arguments))
        (client (bump m))
        (both (same_index t.output_index) (both (str_eq_refl t.name) (text_eq_refl t.arguments)))

pub Accepts-IsStable : IsStable Accepts
unfolding receive_all accept_open accept_item reasoning_item shown_option
Accepts-IsStable = record {
  nothing = λ m hc ht. record { is_created = hc; is_open = ht; taken = refl };
  follows = λ {m} {n} {k} {es} {fs} f g hc ht.
      let a = f hc ht in
      let b = g a.is_created a.is_open in
      record {
        is_created = b.is_created;
        is_open = b.is_open;
        taken =
            receive_all-append es fs (client m)
            ∙ ap (and_receive (receive_all fs)) a.taken
            ∙ b.taken;
      };
  notes = λ m s u active hc ht. record { is_created = hc; is_open = ht; taken = refl };
  closes = λ m o hc ht. record {
    is_created = hc;
    is_open = ht;
    taken =
        receive-one m (item_done m.reasoning_index (reasoning_item m)) hc ht
          (checked (text_eq m.thinking m.thinking) (client (bump m)) (text_eq_refl m.thinking));
  };
  thinks = λ m delta hc ht. record {
    is_created = hc;
    is_open = ht;
    taken = receive-one m (reasoning_delta delta) hc ht refl;
  };
  writes = λ m delta hc ht. record {
    is_created = hc;
    is_open = ht;
    taken = receive-one m (text_delta delta) hc ht refl;
  };
  adds = λ m id name h hc ht. record {
    is_created = hc;
    is_open = ht;
    taken = receive-one m (item_added m.next_output id name) hc ht (
        ap
          (on_new (record (client (bump m)) {
            calls = map shown m.tools ++ (new_tool id name m.next_output ∷ []);
          }))
          (find_tool-map id m.tools ∙ ap shown_option h)
        ∙ ap (λ ts. some (record (client (bump m)) { calls = ts }))
            (sym (map-entered (new_tool id name m.next_output) m.tools)));
  };
  appends = λ m t delta h b hc ht. record {
    is_created = hc;
    is_open = ht;
    taken =
        receive-one m (arguments_delta t.output_index t.id delta) hc ht (added_delta m t delta h);
  };
  keeps_reasoning = λ m hc ht. record { is_created = hc; is_open = ht; taken = refl };
  finishes_text = λ m h hc ht. record {
    is_created = hc;
    is_open = ht;
    taken =
        receive-one m (item_done m.text_index (message m.text)) hc ht
          (checked (text_eq m.text m.text) (client (bump m)) (text_eq_refl m.text));
  };
  declares = λ m t h hc ht. record {
    is_created = hc;
    is_open = ht;
    taken = receive-one m (arguments_done t.output_index t.id t.arguments) hc ht (declared m t h);
  };
  completes = λ m t h hc ht. record {
    is_created = hc;
    is_open = ht;
    taken =
        receive-one m (item_done (some t.output_index) (call_item t)) hc ht (completed_call m t h);
  };
  marks = λ m t h hc ht. record {
    is_created = hc;
    is_open = ht;
    taken =
        ap (λ ts. some (record (client m) { calls = ts })) (sym (replace_tool-done t m.tools h));
  };
}
