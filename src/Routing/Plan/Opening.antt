-- ===== src/Routing/Plan/Opening.antt =====
-- What `Stream` (internal/routing/stream.go) has done when its loop returns a stream.
use mathlib.Core.Path.{subst₂}
use byos.Prelude.{◌≡◌, refl, ap, none, List, ◌∷◌}
use byos.Store.Accounts.{Account}
use byos.Routing.Cooldown.{Db}
use byos.Routing.Failure.{GoError, Failable, ok, fail, Outcome, done}
use byos.Routing.LocalUsage.{Event}
use byos.Routing.Scheduler.{Candidate}
use byos.Routing.Attempt.{World, generates}
use byos.Routing.Execute.Success.{failover-Ends, from}
use byos.Routing.Stream.{new_routed_stream}
use byos.Routing.Plan.{Executor, Plan, Opened, first_of, buffer, call_stream, opened, stream_plan}

module _ {Credentials Credential Canonical Handle : Type 0}
    (plan : Plan Credentials Credential Canonical Handle)
    (e : Executor Credentials Credential Canonical Handle) where
  -- The stream was opened with a credential in a world `v`, its first event is the one that is held
  -- back, and `after` is the world right after that answer.
  pub record Streaming (r : Opened Handle) (after : World) : Type 0 where
    pub model : r.model ≡ plan.model.upstream_name
    pub credential : Credential
    pub before : World
    pub opened_db : Db
    pub answered_db : Db
    pub first : Event
    pub opened :
        plan.bundle.streams.open_stream plan.model plan.canonical credential before
        ≡ (ok r.handle, opened_db)
    pub answered :
        plan.bundle.streams.next r.handle (record before { db = opened_db })
        ≡ (ok first, answered_db)
    pub held_back : r.state ≡ new_routed_stream first
    pub nothing_after :
        after
        ≡ record { db = answered_db; log = generates r.account_id plan.model.provider ∷ before.log }

  -- What a stream with its first event was made of.
  record Buffered (w : World) (opening : Failable Handle × Db) (h : Handle) (first : Event)
      (db : Db) : Type 0 where
    opened_db : Db
    opened : opening ≡ (ok h, opened_db)
    answered : plan.bundle.streams.next h (record w { db = opened_db }) ≡ (ok first, db)

  first_of-Buffered :
      (w : World) (h h' : Handle) (first : Event) (db db' : Db) (answer : Failable Event × Db)
      → plan.bundle.streams.next h (record w { db = db }) ≡ answer
      → first_of e plan w h answer ≡ (ok (h', first), db')
      → Buffered w (ok h, db) h' first db'
  unfolding first_of
  first_of-Buffered w h h' first db db' (ok f, d) a q =
      subst₂ (λ (x : Handle × Event) y. Buffered w (ok h, db) x.0 x.1 y) (same (ap (λ p. p.0) q))
        (ap (λ p. p.1) q) (record { opened_db = db; opened = refl; answered = a })
    where
      same : {x y : Handle × Event} → ◌≡◌ {A = Failable (Handle × Event)} (ok x) (ok y) → x ≡ y
      same z = cc
  first_of-Buffered w h h' first db db' (fail cause, d) a q = absurd (failing (ap (λ p. p.0) q))
    where
      failing :
          {x : GoError} {y : Handle × Event}
          → ◌≡◌ {A = Failable (Handle × Event)} (fail x) (ok y)
          → ⊥
      failing z = cc

  buffer-Buffered :
      (w : World) (h : Handle) (first : Event) (db : Db) (opening : Failable Handle × Db)
      → buffer e plan w opening ≡ (ok (h, first), db)
      → Buffered w opening h first db
  unfolding buffer
  buffer-Buffered w h first db (ok k, d) q = first_of-Buffered w k h first d db _ refl q
  buffer-Buffered w h first db (fail cause, d) q = absurd (failing (ap (λ p. p.0) q))
    where
      failing :
          {x : GoError} {y : Handle × Event}
          → ◌≡◌ {A = Failable (Handle × Event)} (fail x) (ok y)
          → ⊥
      failing z = cc

  opened-Streaming :
      (a : Account Credentials) (c : Credential) (h : Handle) (first : Event) (w : World)
      (r : Opened Handle) (after : World)
      → a.provider ≡ plan.model.provider
      → (call_stream e plan a c w).0 ≡ ok (h, first)
      → opened e plan a (h, first) (call_stream e plan a c w).1 ≡ (done r, after)
      → Streaming r after
  unfolding opened call_stream
  opened-Streaming a c h first w r after own called q =
      let opening = plan.bundle.streams.open_stream plan.model plan.canonical c w in
      let left : Db = (buffer e plan w opening).1 in
      let b : Buffered w opening h first left =
        buffer-Buffered w h first left opening (λ i. (called i, left)) in
      subst₂ Streaming (same_stream (ap (λ p. p.0) q)) (ap (λ p. p.1) q) (record {
        model = refl;
        credential = c;
        before = w;
        opened_db = b.opened_db;
        answered_db = left;
        first = first;
        opened = b.opened;
        answered = b.answered;
        held_back = refl;
        nothing_after = ap (λ k. record { db = left; log = generates a.id k ∷ w.log }) own;
      })
    where
      same_stream :
          {x y : Opened Handle} → ◌≡◌ {A = Outcome (Opened Handle)} (done x) (done y) → x ≡ y
      same_stream h = cc

  -- When the loop of `Stream` returns a stream, it is for the model's upstream name, its handle is what
  -- the provider opened with some credential for the plan's model and request, the event that it holds
  -- back is the answer of that handle to the first call of its `Next`, it is otherwise new, and when it
  -- is returned the last action is that opening, for the account that the stream names by the model's own
  -- provider, and the tables are as that answer left them.
  pub stream-done :
      (ordered : List Candidate) (w : World) (r : Opened Handle)
      → (stream_plan e plan ordered w).0 ≡ done r
      → Streaming r (stream_plan e plan ordered w).1
  unfolding stream_plan
  stream-done ordered w r h =
      elim (failover-Ends plan.bundle.env plan.model (call_stream e plan) (opened e plan) ordered
        none w r h) [
          | from a c (hd, first) v own called finish ↦
              opened-Streaming a c hd first v r _ own called finish
        ]
