-- ===== src/RequestSource.antt =====
-- internal/requestsource/source.go: which address counts as the client behind trusted proxies. Addresses
-- and prefixes are those of net/netip, whose functions are the fields of `Net`, with strings.Split at commas
-- (each part trimmed), len, and the host of an address with a port.
pub mod Client
mod Tests
use byos.Prelude.{
  ℕ, zero, suc, ◌+◌, String, Bool, true, false, not, Option, none, some, List, [], ◌∷◌, ◌++◌,
  length, str_eq, ltb, leb, ◌&&◌, ◌||◌, if◌then◌else◌,
}

pub record Net (Addr Prefix : Type 0) : Type 0 where
  pub parse_addr : String → Option Addr
  pub has_zone : Addr → Bool
  pub unmap : Addr → Addr
  pub prefix_contains : Prefix → Addr → Bool
  -- net.SplitHostPort, or what strings.Trim leaves without a port.
  pub host_of : String → String
  pub parts_of : String → List String
  pub bytes_of : String → ℕ
  -- strings.EqualFold(part, "https").
  pub is_https : String → Bool

abbrev pub max_forwarded_for_bytes : ℕ
max_forwarded_for_bytes = 4096

abbrev pub max_forwarded_for_hops : ℕ
max_forwarded_for_hops = 32

-- What is read of a request.
pub record Request : Type 0 where
  pub has_tls : Bool
  pub remote_addr : String
  pub forwarded_proto : List String
  pub forwarded_for : List String

pub data Error : Type 0 where
  invalid_remote_address chain_too_large invalid_chain invalid_address : Error

pub data Result {ℓ} (A : Type ℓ) : Type ℓ where
  err : Error → Result A
  ok : A → Result A

module _ {Addr Prefix : Type 0} (net : Net Addr Prefix) (prefixes : List Prefix) where
  unfoldable pub any_contains : List Prefix → Addr → Bool
  any_contains [] a = false
  any_contains (p ∷ ps) a = net.prefix_contains p a || any_contains ps a

  unfoldable pub contains : Addr → Bool
  unfolding any_contains
  contains a = any_contains prefixes (net.unmap a)

  unmapped : Option Addr → Option Addr
  unmapped none = none
  unmapped (some a) = some (net.unmap a)

  unfoldable pub remote_address : String → Option Addr
  unfolding unmapped
  remote_address value = unmapped (net.parse_addr (net.host_of value))

  -- One part, once it is known not to be empty and within the number of hops.
  add_parsed : List Addr → Option Addr → Result (List Addr)
  add_parsed chain none = err invalid_address
  add_parsed chain (some a) =
      if net.has_zone a then err invalid_address else ok (chain ++ (net.unmap a ∷ []))

  add_part : List Addr → String → Result (List Addr)
  unfolding add_parsed
  add_part chain part =
      if str_eq part "" || leb max_forwarded_for_hops (length chain)
      then err invalid_chain
      else add_parsed chain (net.parse_addr part)

  abbrev pub and_then : (List Addr → Result (List Addr)) → Result (List Addr) → Result (List Addr)
  and_then next (err e) = err e
  and_then next (ok chain) = next chain

  unfoldable pub add_parts : List String → List Addr → Result (List Addr)
  unfolding add_part
  add_parts [] chain = ok chain
  add_parts (part ∷ parts) chain = and_then (add_parts parts) (add_part chain part)

  -- The loop over the headers, with the bytes so far.
  unfoldable pub add_values : List String → ℕ → List Addr → Result (List Addr)
  unfolding add_parts
  add_values [] bytes chain = ok chain
  add_values (value ∷ values) bytes chain =
      let total = bytes + net.bytes_of value in
      if ltb max_forwarded_for_bytes total
      then err chain_too_large
      else and_then (add_values values total) (add_parts (net.parts_of value) chain)

  -- The loop from the end of the chain.
  abbrev pub or_this : Addr → Option Addr → Option Addr
  or_this a (some b) = some b
  or_this a none = if contains a then none else some a

  unfoldable pub last_untrusted : List Addr → Option Addr
  unfolding contains
  last_untrusted [] = none
  last_untrusted (a ∷ chain) = or_this a (last_untrusted chain)

  abbrev pub first_or : Addr → List Addr → Addr
  first_or peer [] = peer
  first_or peer (a ∷ chain) = a

  abbrev pub picked : Addr → List Addr → Option Addr → Addr
  picked peer chain none = first_or peer chain
  picked peer chain (some a) = a

  from_chain : Addr → Result (List Addr) → Result Addr
  unfolding last_untrusted
  from_chain peer (err e) = err e
  from_chain peer (ok chain) = ok (picked peer chain (last_untrusted (chain ++ (peer ∷ []))))

  abbrev pub is_none : List String → Bool
  is_none [] = true
  is_none (v ∷ vs) = false

  from_peer : Request → Option Addr → Result Addr
  unfolding from_chain add_values contains
  from_peer r none = err invalid_remote_address
  from_peer r (some peer) =
      if not (contains peer)
      then ok peer
      else if is_none r.forwarded_for
      then ok peer
      else from_chain peer (add_values r.forwarded_for 0 [])

  unfoldable pub client_ip : Request → Result Addr
  unfolding from_peer remote_address
  client_ip r = from_peer r (remote_address r.remote_addr)

  last_https : List String → Bool
  last_https [] = false
  last_https (part ∷ []) = net.is_https part
  last_https (part ∷ next ∷ parts) = last_https (next ∷ parts)

  last_value : List String → List String
  last_value [] = []
  last_value (v ∷ []) = net.parts_of v
  last_value (v ∷ w ∷ vs) = last_value (w ∷ vs)

  trusts : Option Addr → Bool
  unfolding contains
  trusts none = false
  trusts (some peer) = contains peer

  unfoldable pub request_is_https : Request → Bool
  unfolding trusts remote_address last_https last_value
  request_is_https r =
      r.has_tls
      || (trusts (remote_address r.remote_addr) && last_https (last_value r.forwarded_proto))
