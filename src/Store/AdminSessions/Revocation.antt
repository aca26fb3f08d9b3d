-- ===== src/Store/AdminSessions/Revocation.antt =====
-- Which sessions are found: those that were created, until they end or are revoked.
use byos.Prelude.{
  ℕ, ◌≡◌, refl, ap, String, Bool, true, false, not, none, List, [], ◌∷◌, str_eq, eq_iff, arith,
  ◌&&◌, Bool-cases, inl, inr,
}
use byos.Time.{unix}
use byos.Store.Responses.{Cipher}
use byos.Store.AdminSessions.{
  Row, err, no_rows, is_revoked, find_row, revoke_rows, get, scan, revoke, require_affected,
}

-- A session that is revoked is not found, at no time.
find_row-revoke_rows :
    (hash : String) (revoked now : ℕ) (rows : List Row)
    → find_row hash now (revoke_rows hash revoked rows).1 ≡ none
unfolding find_row revoke_rows
find_row-revoke_rows hash revoked now [] = refl
find_row-revoke_rows hash revoked now (r ∷ rows) =
    elim (Bool-cases (str_eq r.id_hash hash && not (is_revoked r.revoked_at))) [
      | inl live ↦ ground (arith, find_row-revoke_rows hash revoked now rows)
      | inr dead ↦ ground (arith, find_row-revoke_rows hash revoked now rows)
    ]

other_hash : (a b c : String) → str_eq a b ≡ false → str_eq c a ≡ true → str_eq c b ≡ false
other_hash a b c ne h = ground (arith, eq_iff c a, eq_iff c b, eq_iff a b)

left_true : (a b : Bool) → (a && b) ≡ true → a ≡ true
left_true true b h = refl
left_true false b h = h

-- Revoking a session leaves the look-up of a token with another hash as it was.
find_row-revoke_rows_other :
    (hash other : String) (revoked now : ℕ) (rows : List Row)
    → str_eq hash other ≡ false
    → find_row other now (revoke_rows hash revoked rows).1 ≡ find_row other now rows
unfolding find_row revoke_rows
find_row-revoke_rows_other hash other revoked now [] ne = refl
find_row-revoke_rows_other hash other revoked now (r ∷ rows) ne =
    elim (Bool-cases (str_eq r.id_hash hash && not (is_revoked r.revoked_at))) [
      | inl live ↦
          (let no : str_eq r.id_hash other ≡ false =
              other_hash hash other r.id_hash ne
                (left_true (str_eq r.id_hash hash) (not (is_revoked r.revoked_at)) live) in
            ground (arith, find_row-revoke_rows_other hash other revoked now rows ne))
      | inr dead ↦ ground (arith, find_row-revoke_rows_other hash other revoked now rows ne)
    ]

-- Whether or not `Revoke` finds the session, its token finds none afterwards, at any time; and a token with
-- another hash finds what it found before.
pub get-revoke :
    (hash : String → String) (is_secret : String → Bool) (cipher : Cipher) (token other : String)
    (revoked now : ℕ) (rows : List Row)
    → str_eq (hash token) (hash other) ≡ false
    → (get hash is_secret cipher token now (revoke hash is_secret cipher token revoked rows).1
        ≡ err no_rows)
      × (get hash is_secret cipher other now (revoke hash is_secret cipher token revoked rows).1
          ≡ get hash is_secret cipher other now rows)
unfolding get scan revoke require_affected
get-revoke hash is_secret cipher token other revoked now rows ne = (
  ap (scan hash is_secret cipher)
      (find_row-revoke_rows (hash token) (unix revoked) (unix now) rows),
  ap (scan hash is_secret cipher)
      (find_row-revoke_rows_other (hash token) (hash other) (unix revoked) (unix now) rows ne),
)
