-- ===== src/Devin/StreamMapper/Reading.antt =====
-- The reader of the events that the calls of a mapper return.
use mathlib.Core.Path.{subst, subst₂}
use byos.Prelude.{
  ℕ, ◌≡◌, refl, sym, ap, ◌∙◌, String, Bool, true, false, not, Option, none, some, List, [], ◌∷◌,
  ◌++◌, ◌&&◌, ◌||◌, ◌==◌, if◌then◌else◌, Bool-cases, inl, inr,
}
use byos.Devin.Frames.{is_empty, GetChatMessageResponse, created, finished, Event, Text}
use byos.Devin.StreamMapper.{
  StreamMapper, Outcome, events, fails, Call, prepend, continue, and_then, sets, quiet, fail, emit,
  model, create, identified, push_open, push, close_reasoning, keep_reasoning, finish_text,
  finish_tools, ids_of, response_of, finish, is_error, finalize, new_stream_mapper,
}
use byos.Devin.StreamMapper.Sections.{
  one, bump, Held, close_reasoning-Held, finish_text-Held, finish_tools-Held,
}
use byos.Devin.StreamMapper.Methods.{push_rest, push_rest-Held, keep_reasoning-Held}
use byos.Devin.StreamMapper.Client.{
  Client, accept_open, accept, receive, and_receive, receive_all, receive_all-append,
}
use byos.Devin.StreamMapper.Refinement.{
  client, Accepts, Accepts-IsStable, receive-next, receive-one,
}

same_pair :
    (a b : List Event) (c d : StreamMapper)
    → ◌≡◌ {A = Option (List Event × StreamMapper)} (some (a, c)) (some (b, d))
    → (a ≡ b) × (c ≡ d)
same_pair a b c d h = (cc, cc)

if_true {ℓ} : {A : Type ℓ} (b : Bool) (x y : A) → b ≡ true → (if b then x else y) ≡ x
if_true b x y h = rw h refl

if_false {ℓ} : {A : Type ℓ} (b : Bool) (x y : A) → b ≡ false → (if b then x else y) ≡ y
if_false b x y h = rw h refl

-- What is asked of a mapper.
pub data Request : Type 0 where
  pushes : GetChatMessageResponse → Request
  finalizes : Request

abbrev pub Taken : StreamMapper → List Event → StreamMapper → Type 0
Taken m es n = m.created ≡ true → m.terminal ≡ false → receive_all es (client m) ≡ some (client n)

abbrev pub Reads : StreamMapper → List Event → StreamMapper → Type 0
Reads m es n = m.terminal ≡ false → receive_all es (client m) ≡ some (client n)

-- Only what a call returns is read.
abbrev pub Read :
    (StreamMapper → List Event → StreamMapper → Type 0)
    → StreamMapper
    → Outcome × StreamMapper
    → Type 0
Read R m (events es, n) = R m es n
Read R m (fails e, n) = Unit

weaken : (m : StreamMapper) (r : Outcome × StreamMapper) → Held Accepts m r → Read Taken m r
weaken m (events es, n) h = λ hc ht. (h hc ht).taken
weaken m (fails e, n) h = tt

prepend-Read :
    (m n : StreamMapper) (es : List Event) (r : Outcome × StreamMapper)
    → Accepts m es n
    → Read Taken n r
    → Read Taken m (prepend es r)
prepend-Read m n es (events fs, k) f g = λ hc ht.
    let a = f hc ht in
    receive_all-append es fs (client m)
    ∙ ap (and_receive (receive_all fs)) a.taken
    ∙ g a.is_created a.is_open
prepend-Read m n es (fails e, k) f g = tt

continue-Read :
    (m : StreamMapper) (g : Call) (r : Outcome × StreamMapper)
    → Held Accepts m r
    → ((n : StreamMapper) → Read Taken n (g n))
    → Read Taken m (continue g r)
continue-Read m g (events es, n) f k = prepend-Read m n es (g n) f (k n)
continue-Read m g (fails e, n) f k = tt

and_then-Read :
    (f g : Call) (m : StreamMapper)
    → Held Accepts m (f m)
    → ((n : StreamMapper) → Read Taken n (g n))
    → Read Taken m (and_then f g m)
unfolding and_then
and_then-Read f g m h k = continue-Read m g (f m) h k

first :
    (m : StreamMapper) (n : StreamMapper) (es : List Event) (r : Outcome × StreamMapper)
    → (m.terminal ≡ false → receive_all es (client m) ≡ some (client n))
    → n.created ≡ true
    → n.terminal ≡ m.terminal
    → Read Taken n r
    → Read Reads m (prepend es r)
first m n es (events fs, k) h hc hn g = λ ht.
    receive_all-append es fs (client m) ∙ ap (and_receive (receive_all fs)) (h ht) ∙ g hc (hn ∙ ht)
first m n es (fails e, k) h hc hn g = tt

abbrev begun : StreamMapper → StreamMapper
begun m = record m { created = true }

receive-created :
    (m : StreamMapper)
    → m.created ≡ false
    → receive_all (one (created m.response_id (model m)) (begun m)) (client m)
      ≡ some (client (bump (begun m)))
unfolding receive_all receive accept
receive-created m h =
    receive-next m (created m.response_id (model m))
    ∙ if_false m.created none (some (client (bump (begun m)))) h

create-Read :
    (g : Call) (m : StreamMapper)
    → ((n : StreamMapper) → Read Taken n (g n))
    → Read Reads m (and_then create g m)
unfolding and_then create sets emit quiet receive_all
create-Read g m k = elim (Bool-cases m.created) [
  | inl old ↦
      subst (λ r. Read Reads m (continue g r)) (sym (if_true m.created _ _ old))
        (first m m [] (g m) (λ ht. refl) old refl (k m))
  | inr new ↦
      subst (λ r. Read Reads m (continue g r)) (sym (if_false m.created _ _ new))
        (first m (bump (begun m)) (one (created m.response_id (model m)) (begun m))
          (g (bump (begun m))) (λ ht. receive-created m new) refl refl (k (bump (begun m))))
]

module _ (is_blank : String → Bool) (is_json : Text → Bool) where
  if-Read :
      (m : StreamMapper) (b : Bool) (x y : Outcome × StreamMapper)
      → (b ≡ true → Read Reads m x)
      → (b ≡ false → Read Reads m y)
      → Read Reads m (if b then x else y)
  if-Read m true x y hx hy = hx refl
  if-Read m false x y hx hy = hy refl

  -- What `identified` sets is not shown.
  unseen :
      (m n : StreamMapper) (r : Outcome × StreamMapper)
      → client m ≡ client n
      → m.terminal ≡ n.terminal
      → Read Reads n r
      → Read Reads m (prepend [] r)
  unseen m n (events es, k) h t g = λ ht. ap (receive_all es) h ∙ g (sym t ∙ ht)
  unseen m n (fails e, k) h t g = tt

  push-Read :
      (frame : GetChatMessageResponse) (m : StreamMapper) → Read Reads m (push is_blank frame m)
  unfolding push push_open and_then sets quiet fail receive_all
  push-Read frame m =
      if-Read m m.terminal _ _ (λ ended ht. refl)
        (λ running.
          if-Read m
            (m.reasoning_done
              && (not (is_empty frame.delta_thinking) || not (is_empty frame.delta_signature)))
            _ _ (λ late. tt)
            (λ early.
              unseen m (identified is_blank frame m)
                (and_then create (push_rest frame) (identified is_blank frame m)) refl refl
                (create-Read (push_rest frame) (identified is_blank frame m) (λ n.
                  weaken n (push_rest frame n) (push_rest-Held Accepts Accepts-IsStable frame n)))))

  finish-Read : (m : StreamMapper) → Read Taken m (finish m)
  unfolding finish and_then emit sets accept_open
  finish-Read m = λ hc ht. receive-one m (finished (response_of m)) hc ht refl

  finalize-Read : (m : StreamMapper) → Read Reads m (finalize is_json m)
  unfolding finalize quiet fail receive_all
  finalize-Read m =
      if-Read m m.terminal _ _ (λ ended ht. refl)
        (λ running.
          if-Read m (is_error m.stop) _ _ (λ failed. tt)
            (λ sound. create-Read _ m (λ n.
              and_then-Read close_reasoning _ n (close_reasoning-Held Accepts Accepts-IsStable n)
                (λ n.
                  and_then-Read keep_reasoning _ n (keep_reasoning-Held Accepts Accepts-IsStable n)
                    (λ n.
                      and_then-Read finish_text _ n (finish_text-Held Accepts Accepts-IsStable n)
                        (λ n.
                          and_then-Read (finish_tools is_json (ids_of n.tools)) finish n
                            (finish_tools-Held Accepts Accepts-IsStable is_json (ids_of n.tools) n)
                            finish-Read))))))

  abbrev pub answer : Request → Call
  answer (pushes frame) = push is_blank frame
  answer finalizes = finalize is_json

  abbrev pub and_more :
      List Event → Option (List Event × StreamMapper) → Option (List Event × StreamMapper)
  and_more es none = none
  and_more es (some (fs, n)) = some (es ++ fs, n)

  abbrev pub after :
      (StreamMapper → Option (List Event × StreamMapper))
      → Outcome × StreamMapper
      → Option (List Event × StreamMapper)
  after next (events es, n) = and_more es (next n)
  after next (fails e, n) = none

  -- Calls that all succeed, with the events that they return.
  unfoldable pub run : List Request → StreamMapper → Option (List Event × StreamMapper)
  unfolding push finalize
  run [] m = some ([], m)
  run (r ∷ rs) m = after (run rs) (answer r m)

  abbrev pub Always : StreamMapper → List Event → StreamMapper → Type 0
  Always m es n = receive_all es (client m) ≡ some (client n)

  always :
      (m : StreamMapper) (r : Outcome × StreamMapper)
      → m.terminal ≡ false
      → Read Reads m r
      → Read Always m r
  always m (events es, n) ht h = h ht
  always m (fails e, n) ht h = tt

  -- A mapper that has ended is silent.
  pub answer-ended :
      (r : Request) (m : StreamMapper) → m.terminal ≡ true → answer r m ≡ (events [], m)
  unfolding push finalize quiet
  answer-ended (pushes frame) m h = if_true m.terminal (events [], m) _ h
  answer-ended finalizes m h = if_true m.terminal (events [], m) _ h

  answer-Read : (r : Request) (m : StreamMapper) → m.terminal ≡ false → Read Always m (answer r m)
  answer-Read (pushes frame) m h = always m (push is_blank frame m) h (push-Read frame m)
  answer-Read finalizes m h = always m (finalize is_json m) h (finalize-Read m)

  answer-Always : (r : Request) (m : StreamMapper) → Read Always m (answer r m)
  unfolding receive_all
  answer-Always r m = elim (Bool-cases m.terminal) [
    | inl ended ↦ subst (Read Always m) (sym (answer-ended r m ended)) refl
    | inr running ↦ answer-Read r m running
  ]

  abbrev pub Follows : (StreamMapper → Option (List Event × StreamMapper)) → Type 0
  Follows next = (m n : StreamMapper) (es : List Event) → next m ≡ some (es, n) → Always m es n

  and_more-Always :
      (m n k : StreamMapper) (es fs : List Event) (o : Option (List Event × StreamMapper))
      → Always m es n
      → ((gs : List Event) → o ≡ some (gs, k) → Always n gs k)
      → and_more es o ≡ some (fs, k)
      → Always m fs k
  and_more-Always m n k es fs none a next h = absurd (cc)
  and_more-Always m n k es fs (some (gs, l)) a next h =
      let same : (es ++ gs ≡ fs) × (l ≡ k) = same_pair (es ++ gs) fs l k h in
      subst₂ (λ x y. Always m x y) same.0 same.1
        (receive_all-append es gs (client m)
          ∙ ap (and_receive (receive_all gs)) a
          ∙ next gs (ap (λ x. some (gs, x)) same.1)
          ∙ ap (λ x. some (client x)) (sym same.1))

  after-Always :
      (next : StreamMapper → Option (List Event × StreamMapper))
      → Follows next
      → (m n : StreamMapper) (r : Outcome × StreamMapper) (es : List Event) → Read Always m r
      → after next r ≡ some (es, n)
      → Always m es n
  after-Always next f m n (events fs, k) es g h =
      and_more-Always m k n fs es (next k) g (λ gs e. f k n gs e) h
  after-Always next f m n (fails e, k) es g h = absurd (cc)

  pub run-Always : (rs : List Request) → Follows (run rs)
  unfolding run receive_all
  run-Always [] m n es h =
      let same : ([] ≡ es) × (m ≡ n) = same_pair [] es m n h in
      subst₂ (λ x y. Always m x y) same.0 same.1 refl
  run-Always (r ∷ rs) m n es h =
      after-Always (run rs) (run-Always rs) m n (answer r m) es (answer-Always r m) h

abbrev pub new_client : Client
new_client = record {
  started = false;
  finished = false;
  next = 0;
  thinking = [];
  text = [];
  calls = [];
}

client_of_new :
    (b : Bool) (k m : StreamMapper)
    → (if b then none else some k) ≡ some m
    → client k ≡ new_client
    → client m ≡ new_client
client_of_new true k m h e = absurd (cc)
client_of_new false k m h e = let same : k ≡ m = cc in subst (λ x. client x ≡ new_client) same e

new-client :
    (is_blank : String → Bool) (selected id : String) (max : ℕ) (m : StreamMapper)
    → new_stream_mapper is_blank selected id max ≡ some m
    → client m ≡ new_client
unfolding new_stream_mapper
new-client is_blank selected id max m h = client_of_new (is_blank selected || max == 0) _ m h refl

-- Whatever calls succeed on a new mapper, a reader that puts the deltas of their events together, and
-- rejects what breaks the protocol, takes every event, and ends with the thinking, the text and the
-- calls (ID, name, index and arguments) of the mapper, and with the number of its next event.
pub run-client :
    (is_blank : String → Bool) (is_json : Text → Bool) (selected id : String) (max : ℕ)
    (rs : List Request) (m n : StreamMapper) (es : List Event)
    → new_stream_mapper is_blank selected id max ≡ some m
    → run is_blank is_json rs m ≡ some (es, n)
    → receive_all es new_client ≡ some (client n)
run-client is_blank is_json selected id max rs m n es hm h =
    subst (λ c. receive_all es c ≡ some (client n)) (new-client is_blank selected id max m hm)
      (run-Always is_blank is_json rs m n es h)
