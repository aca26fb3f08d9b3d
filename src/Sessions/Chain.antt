-- ===== src/Sessions/Chain.antt =====
-- The chain of previous responses that internal/sessions/reconstruct.go follows, against its definition
-- as a relation.
use mathlib.Core.Path.{subst}
use byos.Prelude.{
  ℕ, zero, suc, ◌≤◌, ◌≡◌, ◌≢◌, refl, sym, ap, ◌∙◌, ◌↔◌, String, true, false, Option, none, some,
  List, [], ◌∷◌, All, length, ◌==◌, str_eq, eq_iff, str_ne, if◌then◌else◌, arith, Bool-cases,
  Option-cases, inl, inr,
}
use byos.Sessions.{Result, ok, walk, follow, is_member, max_chain_nodes}

-- The elements of a list in reverse, before those of another.
abbrev pub rev_onto : List String → List String → List String
rev_onto [] acc = acc
rev_onto (x ∷ xs) acc = rev_onto xs (x ∷ acc)

module _ (get_link : String → Option (String × String)) where
  -- The IDs from a response back to the first one of its conversation.
  pub data Chain : String → List String → Type 0 where
    start : (id : String) → id ≡ "" → Chain id []
    after :
        (id previous account : String) (ids : List String)
        → id ≢ ""
        → get_link id ≡ some (previous, account)
        → Chain previous ids
        → Chain id (id ∷ ids)

  abbrev pub account_of : Option (String × String) → String
  account_of none = ""
  account_of (some link) = link.1

  -- The account of the last response.
  abbrev pub preferred_of : List String → String
  preferred_of [] = ""
  preferred_of (id ∷ ids) = account_of (get_link id)

  same_link :
      {p a q b : String}
      → ◌≡◌ {A = Option (String × String)} (some (p, a)) (some (q, b))
      → (p ≡ q) × (a ≡ b)
  same_link h = (cc, cc)

  Chain-unique : {id : String} {xs ys : List String} → Chain id xs → Chain id ys → xs ≡ ys
  Chain-unique (start id e) (start _ _) = refl
  Chain-unique (start id e) (after _ _ _ _ ne _ _) = absurd (ne e)
  Chain-unique (after id p a xs ne _ _) (start _ e) = absurd (ne e)
  Chain-unique (after id p a xs ne l c) (after _ q b ys ne' l' c') =
      let same : p ≡ q = (same_link (sym l ∙ l')).0 in
      ap (◌∷◌ id) (Chain-unique c (subst (λ k. Chain k ys) (sym same) c'))

  -- A member of a chain begins a chain of its own within it.
  Chain-member :
      {id : String} (x : String) {ids : List String}
      → Chain id ids
      → is_member get_link x ids ≡ true
      → (rest : List String) × Chain x rest × (length rest ≤ length ids)
  Chain-member x (start id e) h = absurd (cc)
  Chain-member x (after id p a ids ne l c) h = elim (Bool-cases (str_eq id x)) [
    | inl hit ↦ (
      id ∷ ids,
      subst (λ k. Chain k (id ∷ ids)) ((eq_iff id x).0 hit) (after id p a ids ne l c),
      omega arith,
    )
    | inr miss ↦
        let (rest, chain, short) = Chain-member x c (rw miss at h) in
        (rest, chain, omega (arith, short))
  ]

  -- No response comes before itself.
  Chain-acyclic :
      (id p a : String) {ids : List String}
      → id ≢ ""
      → get_link id ≡ some (p, a)
      → Chain p ids
      → is_member get_link id ids ≡ false
  Chain-acyclic id p a {ids} ne l c = elim (Bool-cases (is_member get_link id ids)) [
    | inr no_member ↦ no_member
    | inl member ↦
        let (rest, chain, short) = Chain-member id c member in
        let same : rest ≡ id ∷ ids = Chain-unique chain (after id p a ids ne l c) in
        absurd (omega (arith, short, ap length same))
  ]

  abbrev Disjoint : List String → List String → Type 0
  Disjoint acc ids = All (λ x. is_member get_link x ids ≡ false) acc

  Disjoint-after :
      (id : String) (rest acc : List String)
      → Disjoint acc (id ∷ rest)
      → (is_member get_link id acc ≡ false) × Disjoint acc rest
  Disjoint-after id rest [] h = (refl, tt)
  Disjoint-after id rest (x ∷ acc) h =
      let (fresh, more) = Disjoint-after id rest acc h.1 in
      (ground (arith, eq_iff id x, eq_iff x id), (ground arith, more))

  abbrev pick : List String → String → List String → String
  pick acc preferred [] = preferred
  pick acc preferred (id ∷ ids) = if length acc == 0 then account_of (get_link id) else preferred

  pick-later :
      (x : String) (acc : List String) (preferred : String) (ids : List String)
      → pick (x ∷ acc) preferred ids ≡ preferred
  pick-later x acc preferred [] = refl
  pick-later x acc preferred (id ∷ ids) = ground arith

  walk-start :
      (rounds : ℕ) (acc : List String) (preferred : String) (id : String)
      → id ≡ ""
      → walk get_link rounds acc preferred id ≡ ok (acc, preferred)
  unfolding walk
  walk-start zero acc preferred id e = rw e refl
  walk-start (suc rounds) acc preferred id e = rw e refl

  walk-step :
      (rounds : ℕ) (acc : List String) (preferred id p a : String)
      → id ≢ ""
      → is_member get_link id acc ≡ false
      → get_link id ≡ some (p, a)
      → walk get_link (suc rounds) acc preferred id
        ≡ walk get_link rounds (id ∷ acc) (if length acc == 0 then a else preferred) p
  unfolding walk follow
  walk-step rounds acc preferred id p a ne fresh l = ground (arith, eq_iff id "")

  walk_complete :
      (rounds : ℕ) (acc : List String) (preferred : String) {id : String} {ids : List String}
      → Chain id ids
      → length ids ≤ rounds
      → Disjoint acc ids
      → walk get_link rounds acc preferred id ≡ ok (rev_onto ids acc, pick acc preferred ids)
  walk_complete rounds acc preferred (start id e) b d = walk-start rounds acc preferred id e
  walk_complete zero acc preferred (after id p a ids ne l c) b d = absurd (omega arith)
  walk_complete (suc rounds) acc preferred (after id p a ids ne l c) b d =
      let (fresh, rest) = Disjoint-after id ids acc d in
      walk-step rounds acc preferred id p a ne fresh l
      ∙ walk_complete rounds (id ∷ acc) (if length acc == 0 then a else preferred) c (omega arith)
          (Chain-acyclic id p a ne l c, rest)
      ∙ ap (λ x. ok (rev_onto ids (id ∷ acc), x))
          (pick-later id acc (if length acc == 0 then a else preferred) ids
            ∙ ap (λ o. if length acc == 0 then account_of o else preferred) (sym l))

  walk_sound :
      (rounds : ℕ) (acc : List String) (preferred : String) (id : String) (r : List String × String)
      → walk get_link rounds acc preferred id ≡ ok r
      → (ids : List String) × Chain id ids × (length ids ≤ rounds)
  unfolding walk follow
  walk_sound zero acc preferred id r h = elim (Bool-cases (str_eq id "")) [
    | inl e ↦ ([], start id ((eq_iff id "").0 e), omega arith)
    | inr ne ↦ absurd (cc (rw ne at h))
  ]
  walk_sound (suc rounds) acc preferred id r h = elim (Bool-cases (str_eq id "")) [
    | inl e ↦ ([], start id ((eq_iff id "").0 e), omega arith)
    | inr ne ↦ elim (Bool-cases (is_member get_link id acc)) [
      | inl seen ↦ absurd (ground arith)
      | inr fresh ↦ elim (Option-cases (get_link id)) [
        | inl missing ↦ absurd (ground arith)
        | inr ((p, a), l) ↦
            let named = str_ne id "" ne in
            let (ids, c, b) =
              walk_sound rounds (id ∷ acc) (if length acc == 0 then a else preferred) p r
                (sym (walk-step rounds acc preferred id p a named fresh l) ∙ h) in
            (id ∷ ids, after id p a ids named l c, omega (arith, b))
      ]
    ]
  ]

  same_ok :
      {x y : List String × String} → ◌≡◌ {A = Result (List String × String)} (ok x) (ok y) → x ≡ y
  same_ok h = cc

  -- The loop over the links of `Reconstruct` succeeds if and only if the previous response begins a chain
  -- of at most 256 responses that ends with one that has no previous response. Then it gives the chain from
  -- its first response on, and the account of its last one.
  pub walk-iff-Chain :
      (id : String) (ids : List String) (account : String)
      → (walk get_link max_chain_nodes [] "" id ≡ ok (ids, account)) ↔ (
          (chain : List String) × Chain id chain
          × (length chain ≤ 256)
          × (ids ≡ rev_onto chain [])
          × (account ≡ preferred_of chain))
  walk-iff-Chain id ids account = (forward, backward)
    where
      picked : (chain : List String) → pick [] "" chain ≡ preferred_of chain
      picked [] = refl
      picked (x ∷ xs) = refl

      forward :
          walk get_link max_chain_nodes [] "" id ≡ ok (ids, account)
          → (chain : List String) × Chain id chain
            × (length chain ≤ 256)
            × (ids ≡ rev_onto chain [])
            × (account ≡ preferred_of chain)
      forward h =
          let (chain, c, b) = walk_sound max_chain_nodes [] "" id (ids, account) h in
          let same = same_ok (sym h ∙ walk_complete max_chain_nodes [] "" c b tt) in
          (chain, c, b, ap (λ p. p.0) same, ap (λ p. p.1) same ∙ picked chain)

      backward :
          (chain : List String) × Chain id chain
            × (length chain ≤ 256)
            × (ids ≡ rev_onto chain [])
            × (account ≡ preferred_of chain)
          → walk get_link max_chain_nodes [] "" id ≡ ok (ids, account)
      backward (chain, c, b, e, f) =
          walk_complete max_chain_nodes [] "" c b tt
          ∙ ap (λ x. ok (rev_onto chain [], x)) (picked chain ∙ sym f)
          ∙ ap (λ x. ok (x, account)) (sym e)
