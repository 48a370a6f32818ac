-- ===== src/Http/Handlers/Auth/Refusals.antt =====
-- Logins with wrong credentials.
use room_booking.Base.{
  ℕ, some, GoString, codes, text_eq, false, keep, ◌≡◌, ◌⊎◌, inl, inr, refl, Bool-cases,
}
use room_booking.Domain.Time.{Time}
use room_booking.Domain.Entities.{Uuid}
use room_booking.Domain.Errors.{Error, ok, err, errors_is, Result-cases}
use room_booking.Auth.Jwt.{JwtLibrary, JwtManager}
use room_booking.Auth.Password.{BcryptLibrary, check_password}
use room_booking.Storage.Tables.{UserRow, Database, SqlResult, done, failed, no_rows}
use room_booking.Storage.Statements.{query_row, select_user_by_email}
use room_booking.Storage.World.{run_sql, on_result}
use room_booking.Storage.World.Quiet.{quiet}
use room_booking.Storage.UserRepository as UserRepository
use room_booking.Storage.UserRepository.{user_of_row}
use room_booking.Service.AuthService.{TextLibrary, normalize_email, validate_credentials, login}
use room_booking.Http.Api as Api
use room_booking.Http.Api.{Reply, LoginBody}
use room_booking.Http.Errors.{error_reply, map_domain_error}
use room_booking.Http.Handlers.Auth.{post_login}

-- The user with an address.
abbrev pub user_row : GoString → Database → SqlResult UserRow
user_row email db = query_row (keep (λ (u : UserRow). text_eq u.email email) db.users)

-- The reply to a failed login.
abbrev pub refused_login : Reply
refused_login = error_reply 401 Api.unauthorized "invalid credentials"

module _ (jwt : JwtLibrary) (bcrypt : BcryptLibrary) (texts : TextLibrary)
    (uuid_string : Uuid → GoString) (manager : JwtManager) where
  -- The three ways in which credentials are wrong: they are not valid, no user has the address, or
  -- the user's hash does not match the password.
  abbrev pub IsWrong : Database → LoginBody → Type 0
  IsWrong db b =
      ((e : Error) × (validate_credentials texts (normalize_email texts b.email) b.password
          ≡ err e))
      ⊎ ((user_row (normalize_email texts b.email) db ≡ failed no_rows)
          ⊎ ((row : UserRow) × (hash : GoString) × (user_row (normalize_email texts b.email) db
                ≡ done row)
              × (row.password_hash ≡ some hash)
              × (bcrypt.compare_hash_and_password hash b.password ≡ false)))

  get-quiet :
      (email : GoString) (db : Database) (zone : ℕ)
      → UserRepository.get_by_email email (quiet db zone)
        ≡ (UserRepository.scanned "get user by email" zone (user_row email db), quiet db zone)
  unfolding UserRepository.get_by_email select_user_by_email on_result run_sql
  get-quiet email db zone = refl

  invalid-refused :
      (now later : Time) (db : Database) (zone : ℕ) (b : LoginBody) {e : Error}
      → validate_credentials texts (normalize_email texts b.email) b.password ≡ err e
      → post_login jwt bcrypt texts uuid_string manager now later (some b) (quiet db zone)
        ≡ (refused_login, quiet db zone)
  unfolding post_login login map_domain_error errors_is
  invalid-refused now later db zone b e = rw e refl

  unknown-refused :
      (now later : Time) (db : Database) (zone : ℕ) (b : LoginBody)
      → validate_credentials texts (normalize_email texts b.email) b.password ≡ ok tt
      → user_row (normalize_email texts b.email) db ≡ failed no_rows
      → post_login jwt bcrypt texts uuid_string manager now later (some b) (quiet db zone)
        ≡ (refused_login, quiet db zone)
  unfolding post_login login map_domain_error errors_is
  unknown-refused now later db zone b valid missing = rw valid (rw (get-quiet, missing) refl)

  wrong_password-refused :
      (now later : Time) (db : Database) (zone : ℕ) (b : LoginBody) (row : UserRow)
      (hash : GoString)
      → validate_credentials texts (normalize_email texts b.email) b.password ≡ ok tt
      → user_row (normalize_email texts b.email) db ≡ done row
      → row.password_hash ≡ some hash
      → bcrypt.compare_hash_and_password hash b.password ≡ false
      → post_login jwt bcrypt texts uuid_string manager now later (some b) (quiet db zone)
        ≡ (refused_login, quiet db zone)
  unfolding post_login login map_domain_error errors_is user_of_row check_password
  wrong_password-refused now later db zone b row hash valid found hashed wrong =
      elim (Bool-cases (text_eq hash (codes ""))) [
        | inl empty ↦ rw valid (rw (get-quiet, found) (rw hashed (rw empty refl)))
        | inr full ↦ rw valid (rw (get-quiet, found) (rw hashed (rw full (rw wrong refl))))
      ]

  -- With no other client and a connection that does not fail, a login with wrong credentials is
  -- refused with one and the same 401, whether they are not valid, no user has the address or the
  -- password does not match, and nothing changes.
  pub post_login_refused :
      (now later : Time) (db : Database) (zone : ℕ) (b : LoginBody)
      → IsWrong db b
      → post_login jwt bcrypt texts uuid_string manager now later (some b) (quiet db zone)
        ≡ (refused_login, quiet db zone)
  post_login_refused now later db zone b wrong =
      elim (Result-cases (validate_credentials texts (normalize_email texts b.email) b.password)) [
        | inr (e, invalid) ↦ invalid-refused now later db zone b invalid
        | inl (u, valid) ↦ elim wrong [
          | inl (e, invalid) ↦ invalid-refused now later db zone b invalid
          | inr (inl missing) ↦ unknown-refused now later db zone b valid missing
          | inr (inr (row, hash, found, hashed, differs)) ↦
              wrong_password-refused now later db zone b row hash valid found hashed differs
        ]
      ]
