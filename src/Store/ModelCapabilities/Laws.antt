-- ===== src/Store/ModelCapabilities/Laws.antt =====
-- What the statements of internal/store/model_capabilities.go do to the rows of an account, and to the others.
use byos.Prelude.{
  ◌≡◌, ◌≢◌, refl, sym, ap, ◌∙◌, String, Bool, true, false, List, [], ◌∷◌, map, str_eq, eq_iff,
  arith, Bool-cases, inl, inr,
}
use byos.Store.ModelCapabilities.{
  ModelCapability, Row, row_of, delete_account, of_account, mark_stale, insert_all, Transaction,
  commits, rolls_back, ended, replace,
}

abbrev pub staled : Row → Row
staled r = record r { stale = true }

pub of_account-mark_stale :
    (id : String) (rows : List Row)
    → of_account id (mark_stale id rows) ≡ map staled (of_account id rows)
unfolding of_account mark_stale
of_account-mark_stale id [] = refl
of_account-mark_stale id (r ∷ rows) = elim (Bool-cases (str_eq r.account_id id)) [
  | inl mine ↦ ground (arith, of_account-mark_stale id rows)
  | inr other ↦ ground (arith, of_account-mark_stale id rows)
]

other_test : (a b c : String) → a ≢ b → str_eq c a ≡ true → str_eq c b ≡ false
other_test a b c ne h = ground (arith, eq_iff c a, eq_iff c b, ne)

pub of_account-mark_stale_other :
    (id other : String) (rows : List Row)
    → id ≢ other
    → of_account other (mark_stale id rows) ≡ of_account other rows
unfolding of_account mark_stale
of_account-mark_stale_other id other [] ne = refl
of_account-mark_stale_other id other (r ∷ rows) ne = elim (Bool-cases (str_eq r.account_id id)) [
  | inl mine ↦
      (let no : str_eq r.account_id other ≡ false = other_test id other r.account_id ne mine in
        ground (arith, of_account-mark_stale_other id other rows ne))
  | inr not_mine ↦ ground (arith, of_account-mark_stale_other id other rows ne)
]

of_account-delete_account_other :
    (id other : String) (rows : List Row)
    → id ≢ other
    → of_account other (delete_account id rows) ≡ of_account other rows
unfolding of_account delete_account
of_account-delete_account_other id other [] ne = refl
of_account-delete_account_other id other (r ∷ rows) ne =
    elim (Bool-cases (str_eq r.account_id id)) [
      | inl mine ↦
          (let no : str_eq r.account_id other ≡ false = other_test id other r.account_id ne mine in
            ground (arith, of_account-delete_account_other id other rows ne))
      | inr not_mine ↦ ground (arith, of_account-delete_account_other id other rows ne)
    ]

of_account-row :
    (id other : String) (v : ModelCapability) (rows : List Row)
    → id ≢ other
    → of_account other (row_of id v ∷ rows) ≡ of_account other rows
unfolding of_account
of_account-row id other v rows ne = ground (arith, eq_iff id other, ne)

of_account-delete_account :
    (id : String) (rows : List Row) → of_account id (delete_account id rows) ≡ []
unfolding of_account delete_account
of_account-delete_account id [] = refl
of_account-delete_account id (r ∷ rows) = elim (Bool-cases (str_eq r.account_id id)) [
  | inl mine ↦ ground (arith, of_account-delete_account id rows)
  | inr other ↦ ground (arith, of_account-delete_account id rows)
]

-- The rows of the values, the last one first.
abbrev pub rows_onto : String → List ModelCapability → List Row → List Row
rows_onto id [] rows = rows
rows_onto id (v ∷ values) rows = rows_onto id values (row_of id v ∷ rows)

module _ (is_account : String → Bool) where
  -- A transaction that commits has inserted each value.
  insert_all-rows :
      (id : String) (values : List ModelCapability) (rows after : List Row)
      → insert_all is_account id values rows ≡ commits after
      → rows_onto id values rows ≡ after
  unfolding insert_all
  insert_all-rows id [] rows after h = cc
  insert_all-rows id (v ∷ values) rows after h =
      insert_all-rows id values (row_of id v ∷ rows) after (ground arith)

  of_account-rows_onto_other :
      (id other : String) (values : List ModelCapability) (rows : List Row)
      → id ≢ other
      → of_account other (rows_onto id values rows) ≡ of_account other rows
  of_account-rows_onto_other id other [] rows ne = refl
  of_account-rows_onto_other id other (v ∷ values) rows ne =
      of_account-rows_onto_other id other values (row_of id v ∷ rows) ne
      ∙ of_account-row id other v rows ne

  ended-other :
      (id other : String) (values : List ModelCapability) (rows : List Row) (t : Transaction)
      → id ≢ other
      → insert_all is_account id values (delete_account id rows) ≡ t
      → of_account other (ended is_account rows t).1 ≡ of_account other rows
  unfolding ended
  ended-other id other values rows (commits after) ne h =
      ap (of_account other) (sym (insert_all-rows id values (delete_account id rows) after h))
      ∙ of_account-rows_onto_other id other values (delete_account id rows) ne
      ∙ of_account-delete_account_other id other rows ne
  ended-other id other values rows (rolls_back e) ne h = refl

  pub replace-other :
      (id other : String) (values : List ModelCapability) (rows : List Row)
      → id ≢ other
      → of_account other (replace is_account id values rows).1 ≡ of_account other rows
  unfolding replace
  replace-other id other values rows ne =
      ended-other id other values rows (insert_all is_account id values (delete_account id rows)) ne
        refl
