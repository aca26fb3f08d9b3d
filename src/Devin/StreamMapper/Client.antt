-- ===== src/Devin/StreamMapper/Client.antt =====
-- The reader of a stream, independently of the mapper: it puts the deltas together, and rejects an event
-- that breaks the protocol (a gap in the numbers, an event before `created` or after the last one, a
-- second `created`, a delta of an unknown call or of another index, or a finished item that is not what
-- its deltas amount to).
use byos.Prelude.{
  ℕ, suc, ◌≡◌, refl, Bool, true, false, not, Option, none, some, List, [], ◌∷◌, ◌++◌, ◌==◌, str_eq,
  ◌&&◌, if◌then◌else◌,
}
use byos.Devin.Frames.{
  Text, Item, reasoning, message, function_call, Payload, created, reasoning_delta, text_delta,
  item_added, arguments_delta, arguments_done, item_done, finished, Event,
}
use byos.Devin.StreamMapper.{MappedTool, find_tool, replace_tool, new_tool}

pub record Client : Type 0 where
  pub started : Bool
  pub finished : Bool
  pub next : ℕ
  pub thinking : Text
  pub text : Text
  pub calls : List MappedTool

abbrev pub text_eq : Text → Text → Bool
text_eq [] [] = true
text_eq (x ∷ xs) (y ∷ ys) = x == y && text_eq xs ys
text_eq _ _ = false

abbrev pub index_eq : Option ℕ → ℕ → Bool
index_eq none i = false
index_eq (some j) i = j == i

abbrev pub check : Bool → Client → Option Client
check b c = if b then some c else none

abbrev pub on_call : (MappedTool → Bool) → (MappedTool → Client) → Option MappedTool → Option Client
on_call test next none = none
on_call test next (some t) = check (test t) (next t)

abbrev pub on_new : Client → Option MappedTool → Option Client
on_new c none = some c
on_new c (some t) = none

unfoldable pub accept_item : Option ℕ → Item → Client → Option Client
unfolding find_tool
accept_item i (reasoning summary signature) c = check (text_eq summary c.thinking) c
accept_item i (message text) c = check (text_eq text c.text) c
accept_item i (function_call id name arguments) c =
    on_call
      (λ t. index_eq i t.output_index && (str_eq t.name name && text_eq t.arguments arguments))
      (λ t. c) (find_tool id c.calls)

unfoldable pub accept_open : Payload → Client → Option Client
unfolding accept_item find_tool replace_tool
accept_open (created id model) c = none
accept_open (reasoning_delta delta) c = some (record c { thinking = c.thinking ++ delta })
accept_open (text_delta delta) c = some (record c { text = c.text ++ delta })
accept_open (item_added i id name) c =
    on_new (record c { calls = c.calls ++ (new_tool id name i ∷ []) }) (find_tool id c.calls)
accept_open (arguments_delta i id delta) c =
    on_call (λ t. t.output_index == i)
      (λ t. record c {
        calls = replace_tool (record t { arguments = t.arguments ++ delta }) c.calls;
      })
      (find_tool id c.calls)
accept_open (arguments_done i id arguments) c =
    on_call (λ t. t.output_index == i && text_eq t.arguments arguments) (λ t. c)
      (find_tool id c.calls)
accept_open (item_done i item) c = accept_item i item c
accept_open (finished response) c = some (record c { finished = true })

unfoldable pub accept : Payload → Client → Option Client
unfolding accept_open
accept (created id model) c = if c.started then none else some (record c { started = true })
accept p c = if c.started && not c.finished then accept_open p c else none

unfoldable pub receive : Client → Event → Option Client
unfolding accept
receive c e =
    if e.sequence_number == c.next then accept e.payload (record c { next = suc c.next }) else none

abbrev pub and_receive : (Client → Option Client) → Option Client → Option Client
and_receive f none = none
and_receive f (some c) = f c

unfoldable pub receive_all : List Event → Client → Option Client
unfolding receive
receive_all [] c = some c
receive_all (e ∷ es) c = and_receive (receive_all es) (receive c e)

and_receive_assoc :
    (f g h : Client → Option Client)
    → ((c : Client) → f c ≡ and_receive g (h c))
    → (o : Option Client) → and_receive f o ≡ and_receive g (and_receive h o)
and_receive_assoc f g h k none = refl
and_receive_assoc f g h k (some c) = k c

pub receive_all-append :
    (es fs : List Event) (c : Client)
    → receive_all (es ++ fs) c ≡ and_receive (receive_all fs) (receive_all es c)
unfolding receive_all
receive_all-append [] fs c = refl
receive_all-append (e ∷ es) fs c =
    and_receive_assoc (receive_all (es ++ fs)) (receive_all fs) (receive_all es)
      (receive_all-append es fs) (receive c e)
