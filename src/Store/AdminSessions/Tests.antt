-- ===== src/Store/AdminSessions/Tests.antt =====
-- A session that is created and revoked. A text stands for its hash and for its cipher text.
use byos.Prelude.{◌*◌, ◌≡◌, refl, String, Bool, true, none, some, List, [], ◌∷◌}
use byos.Time.{second, of_unix}
use byos.Store.Responses.{Cipher}
use byos.Store.AdminSessions.{Row, err, ok, no_rows, create, get, revoke}
use byos.Store.AdminSessions.Revocation.{get-revoke}

abbrev as_is : String → String
as_is s = s

abbrev is_secret : String → Bool
is_secret s = true

abbrev cipher : Cipher
cipher = record { encrypt = λ s. some s; decrypt = λ s. some s }

abbrev row : String → Row
row token = record {
  id_hash = token;
  csrf_secret_encrypted = "secret";
  created_at = 5;
  expires_at = 100;
  revoked_at = none;
}

abbrev rows : List Row
rows = row "t" ∷ row "u" ∷ []

found :
    get as_is is_secret cipher "t" (50 * second) rows
    ≡ ok (record {
      csrf_secret = "secret";
      created_at = of_unix 5;
      expires_at = of_unix 100;
      revoked_at = none;
    })
unfolding get
found = refl

created :
    (create as_is is_secret cipher (some "v") (some "secret") (5 * second) (100 * second) rows).1
    ≡ row "v" ∷ rows
unfolding create
created = refl

get-revoke_example :
    (get as_is is_secret cipher "t"
        (50 * second)
        (revoke as_is is_secret cipher "t" (40 * second) rows).1
      ≡ err no_rows)
    × (get as_is is_secret cipher "u"
          (50 * second)
          (revoke as_is is_secret cipher "t" (40 * second) rows).1
        ≡ get as_is is_secret cipher "u" (50 * second) rows)
get-revoke_example = get-revoke as_is is_secret cipher "t" "u" (40 * second) (50 * second) rows refl
