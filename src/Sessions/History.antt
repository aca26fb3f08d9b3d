-- ===== src/Sessions/History.antt =====
-- The history that internal/sessions/reconstruct.go builds: its items, its references and its size.
pub mod Gathered
pub mod Nodes
use mathlib.Core.Logic.Or
use mathlib.Core.Path.{subst}
use mathlib.Core.List.{Mem, mem-cons, mem-cons_self, not-mem-nil, Mem-prop}
use byos.Prelude.{
  ℕ, suc, ◌+◌, ◌≤◌, ◌≡◌, refl, sym, String, Bool, true, not, some, List, [], ◌∷◌, ◌++◌, All,
  All-append, ltb, str_eq, ◌&&◌, if◌then◌else◌, arith, Bool-cases, inl, inr,
}
use byos.Json.{Json, null, boolean, number, text, array, object, Fields, Codec}
use byos.Sessions.{
  Result, ok, err, ◌>>=◌, HistoryBuilder, new_history_builder, max_chain_bytes, kind_of, id_of,
  is_continuity_kind, resolve, refer, is_empty, item_bytes, keep, append_resolved, append_one,
  append,
}

-- Inversion of a chain that succeeds.
pub >>=-ok :
    {A C : Type 0} (before : Result A) (next : A → Result C) {c : C}
    → (before >>= next) ≡ ok c
    → (x : A) × (before ≡ ok x) × (next x ≡ ok c)
>>=-ok (err problem) next h = absurd (cc)
>>=-ok (ok x) next h = (x, refl, h)

module _ (codec : Codec) where
  later_bytes : List Fields → ℕ
  later_bytes [] = 0
  later_bytes (x ∷ xs) = suc (item_bytes codec x) + later_bytes xs

  -- The length of the items' encodings with commas between them.
  abbrev pub joined_bytes : List Fields → ℕ
  unfolding later_bytes
  joined_bytes [] = 0
  joined_bytes (x ∷ xs) = item_bytes codec x + later_bytes xs

  -- Every item is of a kind that is kept, the size is that of the items as a JSON array and within the
  -- limit, and a reference stands for an item of the history.
  pub record IsHistory (b : HistoryBuilder) : Type 0 where
    pub kinds : All (λ x. is_continuity_kind (kind_of x) ≡ true) b.items
    pub size : b.encoded_bytes ≡ 2 + joined_bytes b.items
    pub bounded : b.encoded_bytes ≤ max_chain_bytes
    pub referred : (k : String) (x : Fields) → b.references k ≡ some x → Mem x b.items

  pub new_history_builder-IsHistory : IsHistory new_history_builder
  unfolding new_history_builder joined_bytes
  new_history_builder-IsHistory = record {
    kinds = tt;
    size = refl;
    bounded = omega arith;
    referred = λ k x h. cc;
  }

  later_bytes-snoc :
      (xs : List Fields) (x : Fields)
      → later_bytes (xs ++ (x ∷ [])) ≡ later_bytes xs + suc (item_bytes codec x)
  unfolding later_bytes
  later_bytes-snoc [] x = omega arith
  later_bytes-snoc (y ∷ xs) x = omega (arith, later_bytes-snoc xs x)

  joined_bytes-snoc :
      (xs : List Fields) (x : Fields)
      → joined_bytes (xs ++ (x ∷ []))
        ≡ joined_bytes xs + (if is_empty xs then item_bytes codec x else suc (item_bytes codec x))
  unfolding later_bytes is_empty
  joined_bytes-snoc [] x = omega arith
  joined_bytes-snoc (y ∷ xs) x = omega (arith, later_bytes-snoc xs x)

  mem-snoc : (xs : List Fields) (x : Fields) → Mem x (xs ++ (x ∷ []))
  mem-snoc [] x = mem-cons_self
  mem-snoc (y ∷ xs) x = mem-cons.1 (Or.inr (mem-snoc xs x))

  mem-before : (xs : List Fields) (x y : Fields) → Mem x xs → Mem x (xs ++ (y ∷ []))
  mem-before [] x y m = absurd (not-mem-nil m)
  mem-before (z ∷ xs) x y m =
      Or.elim Mem-prop (mem-cons.0 m) (λ e. mem-cons.1 (Or.inl e))
        (λ t. mem-cons.1 (Or.inr (mem-before xs x y t)))

  kept : HistoryBuilder → Fields → HistoryBuilder
  kept b x = record {
    items = b.items ++ (x ∷ []);
    references = refer x b.references;
    encoded_bytes =
        b.encoded_bytes
        + (if is_empty b.items then item_bytes codec x else suc (item_bytes codec x));
  }

  keep-ok :
      (b : HistoryBuilder) (x : Fields) (b' : HistoryBuilder)
      → keep codec b x ≡ ok b'
      → (b' ≡ kept b x) × ((kept b x).encoded_bytes ≤ max_chain_bytes)
  unfolding keep kept
  keep-ok b x b' h =
      elim (Bool-cases (
        ltb max_chain_bytes (
          b.encoded_bytes
          + (if is_empty b.items then item_bytes codec x else suc (item_bytes codec x))))) [
            | inl over ↦ absurd (ground arith)
            | inr within ↦ (ground arith, ground arith)
          ]

  kept-IsHistory :
      (b : HistoryBuilder) (x : Fields)
      → IsHistory b
      → is_continuity_kind (kind_of x) ≡ true
      → (kept b x).encoded_bytes ≤ max_chain_bytes
      → IsHistory (kept b x)
  unfolding kept
  kept-IsHistory b x v kind bound = record {
    kinds = All-append _ b.items (x ∷ []) v.kinds (kind, tt);
    size = omega (arith, v.size, joined_bytes-snoc b.items x);
    bounded = bound;
    referred = λ k y h. elim (Bool-cases (not (str_eq (id_of x) "") && str_eq k (id_of x))) [
      | inl here ↦
          let same : some x ≡ some y = rw here at h in
          let eq : y ≡ x = cc in
          subst (λ z. Mem z (b.items ++ (x ∷ []))) (sym eq) (mem-snoc b.items x)
      | inr other ↦ mem-before b.items y x (v.referred k y (rw other at h))
    ];
  }

  append_resolved-IsHistory :
      (strict : Bool) (b : HistoryBuilder) (x : Fields) (b' : HistoryBuilder)
      → IsHistory b
      → append_resolved codec strict b x ≡ ok b'
      → IsHistory b'
  unfolding append_resolved
  append_resolved-IsHistory strict b x b' v h = elim (Bool-cases (is_continuity_kind (kind_of x))) [
    | inl kind ↦
        let (same, bound) = keep-ok b x b' (rw kind at h) in
        subst IsHistory (sym same) (kept-IsHistory b x v kind bound)
    | inr other ↦ elim (Bool-cases strict) [
      | inl strictly ↦ absurd (cc (rw (other, strictly) at h))
      | inr loosely ↦
          let same : ok b ≡ ok b' = rw (other, loosely) at h in
          subst IsHistory (same_builder same) v
    ]
  ]
    where
      same_builder : {x y : HistoryBuilder} → ◌≡◌ {A = Result HistoryBuilder} (ok x) (ok y) → x ≡ y
      same_builder q = cc

  append_one-IsHistory :
      (strict : Bool) (b : HistoryBuilder) (j : Json) (b' : HistoryBuilder)
      → IsHistory b
      → append_one codec strict b j ≡ ok b'
      → IsHistory b'
  unfolding append_one
  append_one-IsHistory strict b (object x) b' v h =
      let (y, found, rest) = >>=-ok (resolve b x) (append_resolved codec strict b) h in
      append_resolved-IsHistory strict b y b' v rest
  append_one-IsHistory strict b null b' v h = absurd (cc)
  append_one-IsHistory strict b (boolean c) b' v h = absurd (cc)
  append_one-IsHistory strict b (number s) b' v h = absurd (cc)
  append_one-IsHistory strict b (text s) b' v h = absurd (cc)
  append_one-IsHistory strict b (array items) b' v h = absurd (cc)

  pub append-IsHistory :
      (strict : Bool) (js : List Json) (b b' : HistoryBuilder)
      → IsHistory b
      → append codec strict b js ≡ ok b'
      → IsHistory b'
  unfolding append
  append-IsHistory strict [] b b' v h = subst IsHistory (same_builder h) v
    where
      same_builder : {x y : HistoryBuilder} → ◌≡◌ {A = Result HistoryBuilder} (ok x) (ok y) → x ≡ y
      same_builder q = cc
  append-IsHistory strict (j ∷ js) b b' v h =
      let (c, one, rest) = >>=-ok (append_one codec strict b j) (λ c. append codec strict c js) h in
      append-IsHistory strict js c b' (append_one-IsHistory strict b j c v one) rest
