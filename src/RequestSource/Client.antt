-- ===== src/RequestSource/Client.antt =====
-- The address that is picked.
use byos.Prelude.{
  ◌≡◌, refl, ap, ◌∙◌, Bool, true, false, none, some, List, [], ◌∷◌, ◌++◌, All, Bool-cases, inl, inr,
  ◌⊎◌, if◌then◌else◌,
}
use byos.RequestSource.{
  Net, Request, ok, contains, last_untrusted, or_this, picked, first_or, from_chain, from_peer,
  remote_address, add_values, client_ip, is_none,
}

module _ {Addr Prefix : Type 0} (net : Net Addr Prefix) (prefixes : List Prefix) where
  -- `a` is not trusted, and every address after it is.
  pub record IsRightmost (chain : List Addr) (a : Addr) : Type 0 where
    pub before : List Addr
    pub behind : List Addr
    pub split : chain ≡ before ++ (a ∷ behind)
    pub untrusted : contains net prefixes a ≡ false
    pub trusted : All (λ b. contains net prefixes b ≡ true) behind

  alone :
      (a : Addr) (b : Bool)
      → contains net prefixes a ≡ b
      → or_this net prefixes a none ≡ (if b then none else some a)
  alone a b h = ap (λ c. if c then none else some a) h

  last_untrusted-cases :
      (chain : List Addr)
      → ((last_untrusted net prefixes chain ≡ none)
          × All (λ b. contains net prefixes b ≡ true) chain)
        ⊎ ((a : Addr) × (last_untrusted net prefixes chain ≡ some a) × IsRightmost chain a)
  unfolding last_untrusted
  last_untrusted-cases [] = inl (refl, tt)
  last_untrusted-cases (a ∷ chain) = elim (last_untrusted-cases chain) [
    | inl none_yet ↦ elim (Bool-cases (contains net prefixes a)) [
      | inl is_trusted ↦ inl (
        ap (or_this net prefixes a) none_yet.0 ∙ alone a true is_trusted,
        (is_trusted, none_yet.1),
      )
      | inr not_trusted ↦ inr (
        a,
        ap (or_this net prefixes a) none_yet.0 ∙ alone a false not_trusted,
        record {
          before = [];
          behind = chain;
          split = refl;
          untrusted = not_trusted;
          trusted = none_yet.1;
        },
      )
    ]
    | inr later ↦ inr (
      later.0,
      ap (or_this net prefixes a) later.1,
      record {
        before = a ∷ later.2.before;
        behind = later.2.behind;
        split = ap (λ x. a ∷ x) later.2.split;
        untrusted = later.2.untrusted;
        trusted = later.2.trusted;
      },
    )
  ]

  -- A trusted peer that forwards a chain which is accepted makes the client the last address of the chain
  -- with the peer at its end that is not trusted; where all are trusted, the client is the first of them.
  pub client_ip-IsRightmost :
      (r : Request) (peer : Addr) (chain : List Addr)
      → remote_address net prefixes r.remote_addr ≡ some peer
      → contains net prefixes peer ≡ true
      → is_none net prefixes r.forwarded_for ≡ false
      → add_values net prefixes r.forwarded_for 0 [] ≡ ok chain
      → ((a : Addr) × (client_ip net prefixes r ≡ ok a) × IsRightmost (chain ++ (peer ∷ [])) a)
        ⊎ (All (λ b. contains net prefixes b ≡ true) (chain ++ (peer ∷ []))
            × (client_ip net prefixes r ≡ ok (first_or net prefixes peer chain)))
  unfolding client_ip from_peer from_chain
  client_ip-IsRightmost r peer chain hp ht hv hc =
      let served : from_peer net prefixes r (some peer)
          ≡ ok (
              picked net prefixes peer chain (last_untrusted net prefixes (chain ++ (peer ∷ [])))) =
        rw (ht, hv, hc) refl in
      let answer = ap (from_peer net prefixes r) hp ∙ served in
      elim (last_untrusted-cases (chain ++ (peer ∷ []))) [
        | inl all_trusted ↦
            inr (
              all_trusted.1,
              answer ∙ ap (λ o. ok (picked net prefixes peer chain o)) all_trusted.0,
            )
        | inr some_not ↦ inl (
          some_not.0,
          answer ∙ ap (λ o. ok (picked net prefixes peer chain o)) some_not.1,
          some_not.2,
        )
      ]
