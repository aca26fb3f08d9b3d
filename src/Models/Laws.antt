-- ===== src/Models/Laws.antt =====
-- What a refresh of the snapshot of an account leaves behind.
use byos.Prelude.{
  ◌≡◌, ◌≢◌, refl, ap, ◌∙◌, String, Bool, true, false, Option, none, some, List, [], ◌∷◌, map,
  str_eq, Bool-cases, inl, inr, if◌then◌else◌, ℕ,
}
use byos.Store.ModelCapabilities
use byos.Store.ModelCapabilities.{
  ModelCapability, Row, of_account, mark_stale, values_of, list, replace,
}
use byos.Store.ModelCapabilities.Laws.{
  staled, of_account-mark_stale, of_account-mark_stale_other, replace-other,
}
use byos.Models.{
  Model, Capability, capabilities_of, retained, outdated, capabilities, after_failure,
  after_replace, refresh_from_models, snapshot,
}

-- The models of a snapshot that are supported.
abbrev pub kept : List Capability → List Model
kept [] = []
kept (c ∷ cs) = if c.supported then c.model ∷ kept cs else kept cs

retained-stale :
    (rows : List Row)
    → retained (capabilities_of (values_of (map staled rows)))
      ≡ some (kept (capabilities_of (values_of rows)))
unfolding retained capabilities_of
retained-stale [] = refl
retained-stale (r ∷ rows) = elim (Bool-cases (str_eq r.model "")) [
  | inl marker ↦ rw marker (retained-stale rows)
  | inr named ↦ rw (named, retained-stale rows) refl
]

module _ (is_account : String → Bool) (by_model : List Row → List Row) where
  -- A failed discovery marks the snapshot of the account as stale and returns the supported models of the
  -- snapshot before it, whatever that is, and never the error of a snapshot that is not stale. The order of
  -- the database depends on nothing but the models.
  pub refresh_from_models-outdated :
      ((f : Row → Row)
        → ((r : Row) → (f r).model ≡ r.model)
        → (rs : List Row) → by_model (map f rs) ≡ map f (by_model rs))
      → (account : String) (models : List Model) (now : ℕ) (rows : List Row)
      → refresh_from_models is_account by_model true account models now rows
        ≡ (outdated (kept (capabilities is_account by_model account rows)), mark_stale account rows)
  unfolding refresh_from_models capabilities list after_failure
  refresh_from_models-outdated order account models now rows =
      let listed : by_model (of_account account (mark_stale account rows))
          ≡ map staled (by_model (of_account account rows)) =
        ap by_model (of_account-mark_stale account rows)
        ∙ order staled (λ r. refl) (of_account account rows) in
      ap (λ o. (after_failure is_account by_model o, mark_stale account rows))
        (ap (λ rs. retained (capabilities_of (values_of rs))) listed
          ∙ retained-stale (by_model (of_account account rows)))

  rows_kept :
      (models : List Model) (p : Option ModelCapabilities.Error × List Row)
      → (after_replace is_account by_model models p).1 ≡ p.1
  unfolding after_replace
  rows_kept models (none, rows) = refl
  rows_kept models (some e, rows) = refl

  -- A refresh of one account, be it a success, a failed discovery or a failed transaction, leaves what the
  -- database lists for any other account as it was.
  pub refresh_from_models-other :
      (failed : Bool) (account other : String) (models : List Model) (now : ℕ) (rows : List Row)
      → account ≢ other
      → list by_model other
          (refresh_from_models is_account by_model failed account models now rows).1
        ≡ list by_model other rows
  unfolding refresh_from_models list
  refresh_from_models-other true account other models now rows ne =
      ap (λ rs. values_of (by_model rs)) (of_account-mark_stale_other account other rows ne)
  refresh_from_models-other false account other models now rows ne =
      ap (λ rs. values_of (by_model (of_account other rs)))
        (rows_kept models (replace is_account account (snapshot account now models) rows))
      ∙ ap (λ rs. values_of (by_model rs))
          (replace-other is_account account other (snapshot account now models) rows ne)
