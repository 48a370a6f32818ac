-- ===== src/Service/AuthService/LoginSound.antt =====
-- What stands behind a token that `AuthService.Login` gave out.
use room_booking.Base.{
  ℕ, List, [], ◌∷◌, GoString, codes, text_eq, text_eq_iff, Option, none, some, Listed, inl, inr,
  true, false, Bool-cases, ◌≡◌, refl, sym, arith,
}
use mathlib.Core.Path.{subst}
use room_booking.Domain.Time.{Time}
use room_booking.Domain.Entities.{Uuid, User}
use room_booking.Domain.Codes.{role_code_by_id}
use room_booking.Domain.Errors.{
  Result, ok, err, errors_is, user_not_found, Result-cases, ok-ne-err, ok-injective,
}
use room_booking.Auth.Jwt.{JwtLibrary, JwtManager, generate}
use room_booking.Auth.Password.{BcryptLibrary, check_password}
use room_booking.Storage.Tables.{UserRow, Database, SqlResult, done, failed, no_rows}
use room_booking.Storage.Statements.{query_row, select_user_by_email}
use room_booking.Storage.Statements.Order.{Listed-keep}
use room_booking.Storage.World.{World, on_result, look}
use room_booking.Storage.World.Done.{run_sql-done, done-injective, done-ne-failed}
use room_booking.Storage.UserRepository as UserRepository
use room_booking.Storage.UserRepository.{user_of_row, hash_of}
use room_booking.Service.AuthService.{
  TextLibrary, normalize_email, validate_credentials, login, from_user, token_ttl,
}

-- The row that a query for one row answers stands in the table.
query_row-Listed : {A : Type 0} (rows : List A) {r : A} → query_row rows ≡ done r → Listed r rows
query_row-Listed [] e = absurd (done-ne-failed (sym e))
query_row-Listed (x ∷ xs) e = inl (sym (done-injective e))

hash-some : (o : Option GoString) → text_eq (hash_of o) (codes "") ≡ false → o ≡ some (hash_of o)
unfolding text_eq
hash-some none e = ground (arith, e)
hash-some (some h) e = refl

scanned-ok :
    (zone : ℕ) (r : SqlResult UserRow) {user : User}
    → UserRepository.scanned "get user by email" zone r ≡ ok user
    → (row : UserRow) × (r ≡ done row) × (user ≡ user_of_row zone row)
scanned-ok zone (done row) e = (row, refl, sym (ok-injective e))
scanned-ok zone (failed no_rows) e = absurd (ok-ne-err (sym e))
scanned-ok zone (failed x) e = absurd (ok-ne-err (sym e))

-- A user read by address is a row of the table, which the read leaves as it is.
read-Listed :
    (address : GoString) (w : World) {user : User}
    → (UserRepository.get_by_email address w).0 ≡ ok user
    → (row : UserRow) × Listed row (UserRepository.get_by_email address w).1.db.users
      × (row.email ≡ address)
      × (user ≡ user_of_row w.local_zone row)
unfolding UserRepository.get_by_email select_user_by_email on_result
read-Listed address w e =
    let (row, answered, same) = scanned-ok w.local_zone _ e in
    let (before, selected, left) = run_sql-done (select_user_by_email address) w answered in
    let (stored, named) = (Listed-keep _ row before.users).0 (query_row-Listed _ selected) in
    (
      row,
      subst (λ (d : Database). Listed row d.users) (sym left) stored,
      (text_eq_iff row.email address).0 named,
      same,
    )

module _ (jwt : JwtLibrary) (bcrypt : BcryptLibrary) (texts : TextLibrary)
    (uuid_string : Uuid → GoString) (manager : JwtManager) (now later : Time)
    (email password : GoString) where
  -- The token is one for a user of the database with this address and password.
  pub record IsLogin (token : GoString) (db : Database) : Type 0 where
    pub row : UserRow
    pub stored : Listed row db.users
    pub named : row.email ≡ normalize_email texts email
    pub hash : GoString
    pub has_hash : row.password_hash ≡ some hash
    pub matches : bcrypt.compare_hash_and_password hash password ≡ true
    pub made :
        generate jwt manager now later (uuid_string row.id) (role_code_by_id row.role_id) token_ttl
        ≡ ok token

  -- What a user that was read has to be for `from_user` to give out a token.
  record Admitted (user : User) (token : GoString) : Type 0 where
    pub some_hash : text_eq user.password_hash (codes "") ≡ false
    pub matches : bcrypt.compare_hash_and_password user.password_hash password ≡ true
    pub made : generate jwt manager now later (uuid_string user.id) user.role token_ttl ≡ ok token

  from_user-ok :
      (r : Result User) (w : World) {token : GoString}
      → (from_user jwt bcrypt texts uuid_string manager now later password r w).0 ≡ ok token
      → (user : User) × (r ≡ ok user)
        × Admitted user token
        × ((from_user jwt bcrypt texts uuid_string manager now later password r w).1 ≡ w)
  unfolding check_password
  from_user-ok (err x) w e = elim (Bool-cases (errors_is x user_not_found)) [
    | inl missing ↦ absurd (ok-ne-err (sym (rw missing at e)))
    | inr other ↦ absurd (ok-ne-err (sym (rw other at e)))
  ]
  from_user-ok (ok user) w e = elim (Bool-cases (text_eq user.password_hash (codes ""))) [
    | inl empty ↦ absurd (ok-ne-err (sym (rw empty at e)))
    | inr some_hash ↦
        elim (Bool-cases (bcrypt.compare_hash_and_password user.password_hash password)) [
          | inr other ↦ absurd (ok-ne-err (sym (rw (some_hash, other) at e)))
          | inl matches ↦
              rw (some_hash, matches)
                (
                  user,
                  refl,
                  record {
                    some_hash = some_hash;
                    matches = matches;
                    made = rw (some_hash, matches) at e;
                  },
                  refl,
                )
        ]
  ]

  -- The read of the user and what follows.
  look-IsLogin :
      (w : World) {token : GoString}
      → (look
          (UserRepository.get_by_email (normalize_email texts email))
          (from_user jwt bcrypt texts uuid_string manager now later password)
          w).0
        ≡ ok token
      → IsLogin token
          (look
            (UserRepository.get_by_email (normalize_email texts email))
            (from_user jwt bcrypt texts uuid_string manager now later password)
            w).1.db
  unfolding user_of_row
  look-IsLogin w {token} e =
      let address = normalize_email texts email in
      let read = UserRepository.get_by_email address w in
      let (user, found, admitted, left) = from_user-ok read.0 read.1 e in
      let (row, stored, named, same) = read-Listed address w found in
      let a : Admitted (user_of_row w.local_zone row) token =
        subst (λ u. Admitted u token) same admitted in
      record {
        row = row;
        stored = subst (λ (w' : World). Listed row w'.db.users) (sym left) stored;
        named = named;
        hash = hash_of row.password_hash;
        has_hash = hash-some row.password_hash a.some_hash;
        matches = a.matches;
        made = a.made;
      }

  -- Whatever other clients write and however the connection fails: the token that Login gives out
  -- is made for a user that the database holds under the normalized address and whose hash matches
  -- the password.
  pub login-IsLogin :
      (w : World) {token : GoString}
      → (login jwt bcrypt texts uuid_string manager now later email password w).0 ≡ ok token
      → IsLogin token (login jwt bcrypt texts uuid_string manager now later email password w).1.db
  unfolding login
  login-IsLogin w e =
      elim (Result-cases (validate_credentials texts (normalize_email texts email) password)) [
        | inl (u, valid) ↦ rw valid (look-IsLogin w (rw valid at e))
        | inr (x, invalid) ↦ absurd (ok-ne-err (sym (rw invalid at e)))
      ]
