-- ===== src/Sessions/History/Gathered.antt =====
-- The items that `append` (internal/sessions/reconstruct.go) adds to a history, and those of the stored
-- responses, described apart from the loops and the map of references.
use byos.Prelude.{
  ◌≡◌, refl, sym, ap, ◌∙◌, String, Bool, true, false, not, Option, none, some, List, [], ◌∷◌, ◌++◌,
  str_eq, ◌&&◌, if◌then◌else◌, Bool-cases, Option-cases, inl, inr, ◌⊎◌, arith,
}
use mathlib.Core.Path.{subst}
use byos.Json.{Json, null, boolean, number, text, array, object, Fields, get_field, as_text, Codec}
use byos.Sessions.{
  Error, Result, ok, err, HistoryBuilder, new_history_builder, kind_of, id_of, is_continuity_kind,
  resolved_or, resolve, refer, append_resolved, append_one, append,
}
use byos.Sessions.History.{>>=-ok, kept, keep-ok}

-- The latest item with an ID.
abbrev pub last_with : String → List Fields → Option Fields
last_with k [] = none
last_with k (x ∷ xs) = elim (last_with k xs) [
  | some y ↦ some y
  | none ↦ if not (str_eq (id_of x) "") && str_eq k (id_of x) then some x else none
]

-- An item stands for itself; a reference stands for the latest item of the history with its ID.
pub data StandsFor (h : List Fields) (f : Fields) : Fields → Type 0 where
  itself : str_eq (kind_of f) "item_reference" ≡ false → StandsFor h f f
  referred :
      (g : Fields)
      → str_eq (kind_of f) "item_reference" ≡ true
      → last_with (as_text (get_field "item_id" f)) h ≡ some g
      → StandsFor h f g

-- The history with the items of a list: each is an object and is kept as what it stands for, if that is
-- of a kind that is kept; unless `strict`, others are left out.
pub data Appended (strict : Bool) : List Fields → List Json → List Fields → Type 0 where
  nothing : (h : List Fields) → Appended strict h [] h
  keeps :
      {h h' : List Fields} {js : List Json} (f g : Fields)
      → StandsFor h f g
      → is_continuity_kind (kind_of g) ≡ true
      → Appended strict (h ++ (g ∷ [])) js h'
      → Appended strict h (object f ∷ js) h'
  skips :
      {h h' : List Fields} {js : List Json} (f g : Fields)
      → StandsFor h f g
      → is_continuity_kind (kind_of g) ≡ false
      → strict ≡ false
      → Appended strict h js h'
      → Appended strict h (object f ∷ js) h'

-- The map of references has the latest item with each ID.
abbrev pub Refers : HistoryBuilder → Type 0
Refers b = (k : String) → b.references k ≡ last_with k b.items

pub new_history_builder-Refers : Refers new_history_builder
unfolding new_history_builder
new_history_builder-Refers k = refl

last_with-snoc :
    (k : String) (xs : List Fields) (x : Fields)
    → last_with k (xs ++ (x ∷ [])) ≡ refer x (λ i. last_with i xs) k
last_with-snoc k [] x = refl
last_with-snoc k (y ∷ xs) x = ground (arith, last_with-snoc k xs x)

resolve-StandsFor :
    (b : HistoryBuilder) (f g : Fields) → Refers b → resolve b f ≡ ok g → StandsFor b.items f g
unfolding resolve resolved_or
resolve-StandsFor b f g v h = elim (Bool-cases (str_eq (kind_of f) "item_reference")) [
  | inr plain ↦ subst (StandsFor b.items f) (same_item (rw plain at h)) (itself plain)
  | inl reference ↦ elim (Option-cases (b.references (as_text (get_field "item_id" f)))) [
    | inl e ↦ absurd (failing (rw (reference, e) at h))
    | inr (x, e) ↦ referred g reference (
        sym (v (as_text (get_field "item_id" f)))
        ∙ e
        ∙ ap some (same_item (rw (reference, e) at h)))
  ]
]
  where
    same_item : {x y : Fields} → ◌≡◌ {A = Result Fields} (ok x) (ok y) → x ≡ y
    same_item q = cc

    failing : {e : Error} {y : Fields} → ◌≡◌ {A = Result Fields} (err e) (ok y) → ⊥
    failing q = cc

module _ (codec : Codec) where
  kept-Refers : (b : HistoryBuilder) (g : Fields) → Refers b → Refers (kept codec b g)
  unfolding kept
  kept-Refers b g v k = ground (arith, last_with-snoc k b.items g, v k)

  -- One round of the loop keeps what the item stands for, or leaves it out.
  Rounds : Bool → HistoryBuilder → Fields → HistoryBuilder → Type 0
  Rounds strict b g b' =
      (is_continuity_kind (kind_of g) ≡ true) × (b'.items ≡ b.items ++ (g ∷ []))
      ⊎ (is_continuity_kind (kind_of g) ≡ false) × (strict ≡ false) × (b' ≡ b)

  append_resolved-Rounds :
      (strict : Bool) (b : HistoryBuilder) (g : Fields) (b' : HistoryBuilder)
      → Refers b
      → append_resolved codec strict b g ≡ ok b'
      → Refers b' × Rounds strict b g b'
  unfolding append_resolved Rounds kept
  append_resolved-Rounds strict b g b' v h = elim (Bool-cases (is_continuity_kind (kind_of g))) [
    | inl kind ↦
        let (same, _) = keep-ok codec b g b' (rw kind at h) in
        (subst Refers (sym same) (kept-Refers b g v), inl (kind, ap (λ x. x.items) same))
    | inr other ↦ elim (Bool-cases strict) [
      | inl strictly ↦ absurd (cc (rw (other, strictly) at h))
      | inr loosely ↦
          let same = same_builder (rw (other, loosely) at h) in
          (subst Refers same v, inr (other, loosely, sym same))
    ]
  ]
    where
      same_builder : {x y : HistoryBuilder} → ◌≡◌ {A = Result HistoryBuilder} (ok x) (ok y) → x ≡ y
      same_builder q = cc

  Rounds-Appended :
      (strict : Bool) (b b' : HistoryBuilder) (f g : Fields) (js : List Json) (h : List Fields)
      → StandsFor b.items f g
      → Rounds strict b g b'
      → Appended strict b'.items js h
      → Appended strict b.items (object f ∷ js) h
  unfolding Rounds
  Rounds-Appended strict b b' f g js h s (inl (kind, same)) rest =
      keeps f g s kind (subst (λ l. Appended strict l js h) same rest)
  Rounds-Appended strict b b' f g js h s (inr (kind, loosely, same)) rest =
      skips f g s kind loosely (subst (λ x. Appended strict x.items js h) same rest)

  pub append-Appended :
      (strict : Bool) (js : List Json) (b b' : HistoryBuilder)
      → Refers b
      → append codec strict b js ≡ ok b'
      → Refers b' × Appended strict b.items js b'.items
  unfolding append append_one
  append-Appended strict [] b b' v h = (
    subst Refers (same_builder h) v,
    subst (λ x. Appended strict b.items [] x.items) (same_builder h) (nothing b.items),
  )
    where
      same_builder : {x y : HistoryBuilder} → ◌≡◌ {A = Result HistoryBuilder} (ok x) (ok y) → x ≡ y
      same_builder q = cc
  append-Appended strict (object f ∷ js) b b' v h =
      let (c, one, rest) =
        >>=-ok (append_one codec strict b (object f)) (λ c. append codec strict c js) h in
      let (g, found, placed) = >>=-ok (resolve b f) (append_resolved codec strict b) one in
      let (w, round) = append_resolved-Rounds strict b g c v placed in
      let (w', more) = append-Appended strict js c b' w rest in
      (w', Rounds-Appended strict b c f g js b'.items (resolve-StandsFor b f g v found) round more)
  append-Appended strict (null ∷ js) b b' v h = absurd (cc)
  append-Appended strict (boolean x ∷ js) b b' v h = absurd (cc)
  append-Appended strict (number x ∷ js) b b' v h = absurd (cc)
  append-Appended strict (text x ∷ js) b b' v h = absurd (cc)
  append-Appended strict (array x ∷ js) b b' v h = absurd (cc)
