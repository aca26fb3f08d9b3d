-- ===== src/Throttle/Store/Check.antt =====
-- What `Check` of internal/store/admin_auth_throttle.go reports of a source, and what it keeps.
use byos.Prelude.{ℕ, ◌≤◌, ◌<◌, ◌≡◌, ◌≢◌, refl, ap, ◌∙◌, String, Option, none, some, [], arith}
use byos.Throttle.Policy.{Policy, Status}
use byos.Throttle.Store.Rows.{
  Source, find_source, find_source-delete_source, find_source-delete_source_other,
}
use byos.Throttle.Store.{
  Tables, Global, unix_time, check_row, check_found, check_source, check_guard, check_global, check,
  prior_count,
}

module _ (hash : String) (now : ℕ) (policy : Policy) where
  -- The second half of `Check` keeps the sources, and never lowers the block.
  check_guard-keeps :
      (status : Status) (t : Tables) (o : Option Global)
      → ((check_guard now policy status t o).1.sources ≡ t.sources)
        × (status.blocked_until ≤ (check_guard now policy status t o).0.blocked_until)
  unfolding check_guard
  check_guard-keeps status t none = (refl, omega arith)
  check_guard-keeps status t (some g) = (ground arith, ground arith)

  check-keeps :
      (t : Tables)
      → ((check hash now policy t).1.sources ≡ (check_source hash now policy t).1.sources)
        × ((check_source hash now policy t).0.blocked_until
            ≤ (check hash now policy t).0.blocked_until)
  unfolding check check_global
  check-keeps t =
      let (status, t') = check_source hash now policy t in check_guard-keeps status t' t'.global

  check_row-locked :
      (t : Tables) (r : Source)
      → now < unix_time r.blocked_until
      → check_row now policy hash t r
        ≡ (record { blocked_until = unix_time r.blocked_until; transitions = [] }, t)
  unfolding check_row
  check_row-locked t r h = ground arith

  -- A source with a block in the future: the block counts, and the sources stay.
  pub check-locked :
      (t : Tables) (r : Source)
      → find_source hash t.sources ≡ some r
      → now < unix_time r.blocked_until
      → ((check hash now policy t).1.sources ≡ t.sources)
        × (unix_time r.blocked_until ≤ (check hash now policy t).0.blocked_until)
  unfolding check_source check_found
  check-locked t r found h =
      let (same, above) = check-keeps t in
      let q : check_source hash now policy t
          ≡ (record { blocked_until = unix_time r.blocked_until; transitions = [] }, t) =
        ap (check_found now policy hash t) found ∙ check_row-locked t r h in
      (same ∙ ap (λ p. p.1.sources) q, omega (arith, above, ap (λ p. p.0.blocked_until) q))

  check_row-prior :
      (t : Tables) (r : Source)
      → find_source hash t.sources ≡ some r
      → (check_row now policy hash t r).0.blocked_until ≤ now
      → prior_count now policy (find_source hash (check_row now policy hash t r).1.sources)
        ≡ prior_count now policy (some r)
  unfolding check_row prior_count
  check_row-prior t r found h = ground (arith, find_source-delete_source hash t.sources)

  check_found-prior :
      (t : Tables) (o : Option Source)
      → find_source hash t.sources ≡ o
      → (check_found now policy hash t o).0.blocked_until ≤ now
      → prior_count now policy (find_source hash (check_found now policy hash t o).1.sources)
        ≡ prior_count now policy o
  unfolding check_found
  check_found-prior t none found h = ap (prior_count now policy) found
  check_found-prior t (some r) found h = check_row-prior t r found h

  -- Where nothing blocks, what was deleted did not count any more.
  pub check-prior :
      (t : Tables)
      → (check hash now policy t).0.blocked_until ≤ now
      → prior_count now policy (find_source hash (check hash now policy t).1.sources)
        ≡ prior_count now policy (find_source hash t.sources)
  unfolding check_source
  check-prior t h =
      let (same, above) = check-keeps t in
      ap (λ l. prior_count now policy (find_source hash l)) same
      ∙ check_found-prior t (find_source hash t.sources) refl (omega (arith, above, h))

  check_found-other :
      (t : Tables) (o : Option Source) (b : String)
      → hash ≢ b
      → find_source b (check_found now policy hash t o).1.sources ≡ find_source b t.sources
  unfolding check_found check_row
  check_found-other t none b h = refl
  check_found-other t (some r) b h =
      ground (arith, find_source-delete_source_other hash t.sources b h)

  pub check-other :
      (t : Tables) (b : String)
      → hash ≢ b
      → find_source b (check hash now policy t).1.sources ≡ find_source b t.sources
  unfolding check_source
  check-other t b h =
      ap (find_source b) (check-keeps t).0 ∙ check_found-other t (find_source hash t.sources) b h
