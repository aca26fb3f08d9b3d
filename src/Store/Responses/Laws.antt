-- ===== src/Store/Responses/Laws.antt =====
-- What a look-up in internal/store/responses.go finds after a write.
use byos.Prelude.{
  ℕ, ◌<◌, ◌≡◌, refl, sym, ap, ◌∙◌, String, true, false, Option, none, some, List, [], ◌∷◌, str_eq,
  str_eq_refl, eq_iff, arith, Bool-cases, inl, inr,
}
use byos.Time.{unix, of_unix}
use byos.Store.Responses.{
  ResponseSession, Row, ok, Cipher, null_string, string_of, sealed, find_row, link_of, has_id,
  get_link, insert, put, opened, scan, get,
}

string_of-null_string : (s : String) → string_of (null_string s) ≡ s
string_of-null_string s = elim (Bool-cases (str_eq s "")) [
  | inl e ↦ rw e (sym ((eq_iff s "").0 e))
  | inr e ↦ rw e refl
]

module _ (cipher : Cipher) where
  -- An insertion that succeeded.
  record Sealed (v : ResponseSession) (rows after : List Row) : Type 0 where
    input : String
    output : String
    input_sealed : cipher.encrypt v.input ≡ some input
    output_sealed : cipher.encrypt v.output ≡ some output
    added : after ≡ sealed v input output ∷ rows
    fresh : has_id v.response_id rows ≡ false

  insert-Sealed :
      (v : ResponseSession) (i o : Option String) (rows : List Row)
      → cipher.encrypt v.input ≡ i
      → cipher.encrypt v.output ≡ o
      → (insert cipher v i o rows).0 ≡ none
      → Sealed v rows (insert cipher v i o rows).1
  unfolding insert
  insert-Sealed v none o rows p q h = absurd (cc)
  insert-Sealed v (some x) none rows p q h = absurd (cc)
  insert-Sealed v (some x) (some y) rows p q h = elim (Bool-cases (has_id v.response_id rows)) [
    | inl old ↦ absurd (ground arith)
    | inr new ↦ record {
      input = x;
      output = y;
      input_sealed = p;
      output_sealed = q;
      added = ground arith;
      fresh = new;
    }
  ]

  put-Sealed :
      (v : ResponseSession) (rows : List Row)
      → (put cipher v rows).0 ≡ none
      → Sealed v rows (put cipher v rows).1
  unfolding put
  put-Sealed v rows h =
      insert-Sealed v (cipher.encrypt v.input) (cipher.encrypt v.output) rows refl refl h

  find_row-sealed :
      (v : ResponseSession) (x y : String) (now : ℕ) (rows : List Row)
      → now < unix v.expires_at
      → find_row v.response_id now (sealed v x y ∷ rows) ≡ some (sealed v x y)
  unfolding find_row
  find_row-sealed v x y now rows h = ground (arith, str_eq_refl v.response_id)

  pub get_link-put_self :
      (v : ResponseSession) (rows : List Row) (now : ℕ)
      → (put cipher v rows).0 ≡ none
      → unix now < unix v.expires_at
      → get_link v.response_id now (put cipher v rows).1
        ≡ some (v.previous_response_id, v.preferred_account_id)
  unfolding get_link
  get_link-put_self v rows now h l =
      let p = put-Sealed v rows h in
      ap link_of (
        ap (find_row v.response_id (unix now)) p.added
        ∙ find_row-sealed v p.input p.output (unix now) rows l)
      ∙ rw
          (
            string_of-null_string v.previous_response_id,
            string_of-null_string v.preferred_account_id,
          )
          refl

  -- If decryption inverts encryption, then after a `Put` that succeeds and before the second of the expiry,
  -- `Get` returns what was put, with its times in whole seconds, and `GetLink` its previous response and
  -- its account.
  pub get-put :
      ((s t : String) → cipher.encrypt s ≡ some t → cipher.decrypt t ≡ some s)
      → (v : ResponseSession) (rows : List Row) (now : ℕ) → (put cipher v rows).0 ≡ none
      → unix now < unix v.expires_at
      → (get cipher v.response_id now (put cipher v rows).1
          ≡ ok (record v {
            created_at = of_unix (unix v.created_at);
            expires_at = of_unix (unix v.expires_at);
          }))
        × (get_link v.response_id now (put cipher v rows).1
            ≡ some (v.previous_response_id, v.preferred_account_id))
  unfolding get get_link scan opened
  get-put law v rows now h l =
      let p = put-Sealed v rows h in
      let found : find_row v.response_id (unix now) (put cipher v rows).1
          ≡ some (sealed v p.input p.output) =
        ap (find_row v.response_id (unix now)) p.added
        ∙ find_row-sealed v p.input p.output (unix now) rows l in
      (
        rw
            (
              found,
              law v.input p.input p.input_sealed,
              law v.output p.output p.output_sealed,
              string_of-null_string v.upstream_response_id,
              string_of-null_string v.previous_response_id,
              string_of-null_string v.preferred_account_id,
            )
            refl,
        get_link-put_self v rows now h l,
      )

  has_id-find_row :
      (id : String) (now : ℕ) (rows : List Row) (r : Row)
      → find_row id now rows ≡ some r
      → has_id id rows ≡ true
  unfolding find_row
  has_id-find_row id now [] r h = cc
  has_id-find_row id now (x ∷ rows) r h = ground (arith, has_id-find_row id now rows r)

  linked-found :
      (o : Option Row) (l : String × String) → link_of o ≡ some l → (r : Row) × (o ≡ some r)
  linked-found none l h = absurd (cc)
  linked-found (some r) l h = (r, refl)

  -- A `Put` that succeeds keeps the links of the responses that were there.
  pub get_link-put :
      (v : ResponseSession) (rows : List Row) (id : String) (now : ℕ) (l : String × String)
      → (put cipher v rows).0 ≡ none
      → get_link id now rows ≡ some l
      → get_link id now (put cipher v rows).1 ≡ some l
  unfolding get_link find_row
  get_link-put v rows id now l h found =
      let p = put-Sealed v rows h in
      let (r, row) = linked-found (find_row id (unix now) rows) l found in
      let old : has_id id rows ≡ true = has_id-find_row id (unix now) rows r row in
      ap (λ x. link_of (find_row id (unix now) x)) p.added
      ∙ ap link_of (kept (sealed v p.input p.output) (other p.fresh old))
      ∙ found
    where
      other :
          has_id v.response_id rows ≡ false
          → has_id id rows ≡ true
          → str_eq v.response_id id ≡ false
      other new old = elim (Bool-cases (str_eq v.response_id id)) [
        | inr no_match ↦ no_match
        | inl hit ↦
            let same = (eq_iff v.response_id id).0 hit in absurd (cc (ap (λ x. has_id x rows) same))
      ]

      kept :
          (x : Row)
          → str_eq x.response_id id ≡ false
          → find_row id (unix now) (x ∷ rows) ≡ find_row id (unix now) rows
      kept x h = ground arith
