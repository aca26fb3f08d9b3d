-- ===== src/RequestSource/Tests.antt =====
-- Addresses are texts; `10` is the one that is trusted, and a header is one address.
use byos.Prelude.{◌≡◌, refl, String, true, false, some, [], ◌∷◌, All, ◌⊎◌, str_eq}
use byos.RequestSource.{Net, Request, ok, contains, first_or, client_ip, request_is_https}
use byos.RequestSource.Client.{IsRightmost, client_ip-IsRightmost}

abbrev net : Net String String
net = record {
  parse_addr = λ s. some s;
  has_zone = λ s. false;
  unmap = λ s. s;
  prefix_contains = λ p s. str_eq p s;
  host_of = λ s. s;
  parts_of = λ s. s ∷ [];
  bytes_of = λ s. 10;
  is_https = λ s. str_eq s "https";
}

abbrev request : Request
request = record {
  has_tls = false;
  remote_addr = "10";
  forwarded_proto = "http" ∷ "https" ∷ [];
  forwarded_for = "1" ∷ "2" ∷ "10" ∷ [];
}

client_ip-IsRightmost_example :
    ((a : String) × (client_ip net ("10" ∷ []) request ≡ ok a)
      × IsRightmost net ("10" ∷ []) ("1" ∷ "2" ∷ "10" ∷ "10" ∷ []) a)
    ⊎ (All (λ b. contains net ("10" ∷ []) b ≡ true) ("1" ∷ "2" ∷ "10" ∷ "10" ∷ [])
        × (client_ip net ("10" ∷ []) request
            ≡ ok (first_or net ("10" ∷ []) "10" ("1" ∷ "2" ∷ "10" ∷ []))))
unfolding byos.RequestSource.add_values contains byos.RequestSource.remote_address
client_ip-IsRightmost_example =
    client_ip-IsRightmost net ("10" ∷ []) request "10" ("1" ∷ "2" ∷ "10" ∷ []) refl refl refl refl

second_one : client_ip net ("10" ∷ []) request ≡ ok "2"
unfolding client_ip
second_one = refl

secure : request_is_https net ("10" ∷ []) request ≡ true
unfolding request_is_https
secure = refl
