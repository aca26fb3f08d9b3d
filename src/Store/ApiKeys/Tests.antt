-- ===== src/Store/ApiKeys/Tests.antt =====
-- A key that is created, used and revoked. A text stands for its hash.
use byos.Prelude.{◌*◌, ◌≡◌, ◌≢◌, refl, String, some, none, List, [], ◌∷◌}
use byos.Time.{second, of_unix, unix}
use byos.Store.ApiKeys.{ApiKey, Row, ok, create, authenticate, revoke}
use byos.Store.ApiKeys.Revocation.{authenticate-create, authenticate-revoke}

abbrev as_is : String → String
as_is s = s

abbrev row : String → String → Row
row id hash = record {
  id = id;
  prefix = "byos_abcdefg";
  key_hash = hash;
  label = "l";
  created_at = 5;
  last_used_at = none;
  revoked_at = none;
}

abbrev rows : List Row
rows = row "k1" "byos_abcdefgh" ∷ row "k2" "byos_abcdefgi" ∷ []

abbrev key : ApiKey
key = record {
  id = "k3";
  prefix = "byos_abcdefg";
  label = "l";
  created_at = of_unix 7;
  last_used_at = none;
  revoked_at = none;
}

made : (create as_is "k3" "byos_abcdefg" "l" "byos_abcdefgj" (7 * second) rows).0 ≡ ok key
unfolding create
made = refl

authenticate-create_example :
    (authenticate as_is "byos_abcdefg" "byos_abcdefgj"
      (9 * second)
      (create as_is "k3" "byos_abcdefg" "l" "byos_abcdefgj" (7 * second) rows).1).0
    ≡ ok (record key { last_used_at = some (of_unix (unix (9 * second))) })
authenticate-create_example =
    authenticate-create as_is "k3" "byos_abcdefg" "l" "byos_abcdefgj" (7 * second) (9 * second) rows
      key made

abbrev used : ApiKey
used = record {
  id = "k2";
  prefix = "byos_abcdefg";
  label = "l";
  created_at = of_unix 5;
  last_used_at = some (of_unix 9);
  revoked_at = none;
}

other_key :
    authenticate as_is "byos_abcdefg" "byos_abcdefgi" (9 * second) (revoke "k1" (8 * second) rows).1
    ≡ (
      ok used,
      record (row "k1" "byos_abcdefgh") { revoked_at = some 8 }
          ∷ record (row "k2" "byos_abcdefgi") { last_used_at = some 9 }
          ∷ [],
    )
unfolding authenticate revoke
other_key = refl

authenticate-revoke_example : used.id ≢ "k1"
authenticate-revoke_example =
    authenticate-revoke as_is "k1" "byos_abcdefg" "byos_abcdefgi" (8 * second) (9 * second) rows
      (record (row "k1" "byos_abcdefgh") { revoked_at = some 8 }
        ∷ record (row "k2" "byos_abcdefgi") { last_used_at = some 9 }
        ∷ [])
      used other_key
