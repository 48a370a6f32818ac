-- ===== src/Service/AuthService/RoundTrip.antt =====
-- A user who has registered can log in.
use room_booking.Base.{
  ℕ, pos, ◌==ℤ◌, ◌∷◌, GoString, text_eq, text_eq_refl, text_eq_iff, some, Option-cases, true, false,
  Bool-cases, ◌≡◌, inl, inr, refl, sym, ap, ◌∙◌, arith,
}
use room_booking.Domain.Time.{Time}
use room_booking.Domain.Entities.{Uuid, User}
use room_booking.Domain.Codes.{role_admin, role_user, role_id_by_code, role_code_by_id}
use room_booking.Domain.Errors.{
  Error, Result, ok, err, domain, invalid_request, Result-cases, ok-ne-err,
}
use room_booking.Auth.Jwt.{JwtLibrary, JwtManager, generate}
use room_booking.Auth.Password.{BcryptLibrary, BcryptLaws, hash_password, check_password}
use room_booking.Storage.Tables.{UserRow, Database, DbError, failed}
use room_booking.Storage.Statements.{insert_user, select_user_by_email, first_violation, user_tests}
use room_booking.Storage.World.{World, run_sql, on_result}
use room_booking.Storage.World.Quiet.{quiet}
use room_booking.Storage.UserRepository as UserRepository
use room_booking.Storage.UserRepository.{row_of_user, user_of_row}
use room_booking.Service.AuthService.{
  TextLibrary, normalize_email, validate_credentials, new_user, register, login, token_ttl,
}

-- A role with an id is the code of that id.
role_code-role_id :
    (role : GoString)
    → (role_id_by_code role ==ℤ pos 0) ≡ false
    → role_code_by_id (role_id_by_code role) ≡ role
unfolding role_id_by_code role_code_by_id
role_code-role_id role known = elim (Bool-cases (text_eq role role_admin)) [
  | inl admin ↦ rw admin (sym ((text_eq_iff role role_admin).0 admin))
  | inr not_admin ↦ elim (Bool-cases (text_eq role role_user)) [
    | inl user ↦ rw not_admin (rw user (sym ((text_eq_iff role role_user).0 user)))
    | inr other ↦ (let none_left : true ≡ false = rw (not_admin, other) at known in absurd (cc))
  ]
]

-- A hash that was made.
hash-made :
    (bcrypt : BcryptLibrary) (password : GoString) {hash : GoString}
    → hash_password bcrypt password ≡ ok hash
    → bcrypt.generate_from_password password ≡ some hash
unfolding hash_password
hash-made bcrypt password e = elim (Option-cases (bcrypt.generate_from_password password)) [
  | inl missing ↦ absurd (ground (arith, missing))
  | inr (h, made) ↦ ground (arith, made)
]

created-failed :
    (zone : ℕ) (x : DbError) {user : User} → UserRepository.created zone (failed x) ≡ ok user → ⊥
created-failed zone x e = ground arith

module _ (jwt : JwtLibrary) (bcrypt : BcryptLibrary) (texts : TextLibrary)
    (uuid_string : Uuid → GoString) (manager : JwtManager) (db : Database) (zone db_now : ℕ)
    (new_id : Uuid) (email password role : GoString) where
  -- The row of the new user.
  abbrev pub user_row_of : GoString → UserRow
  user_row_of hash =
      row_of_user db_now
        (new_user new_id (normalize_email texts email) (role_id_by_code role) role hash)

  abbrev after : GoString → Database
  after hash = record db { users = user_row_of hash ∷ db.users }

  -- What a registration that succeeded has found and left.
  record Registered (w' : World) : Type 0 where
    pub hash : GoString
    pub made : bcrypt.generate_from_password password ≡ some hash
    pub valid : validate_credentials texts (normalize_email texts email) password ≡ ok tt
    pub known : (role_id_by_code role ==ℤ pos 0) ≡ false
    pub left : w' ≡ quiet (after hash) zone

  abbrev registration : Result User × World
  registration =
      register jwt bcrypt texts uuid_string manager db_now new_id email password role
        (quiet db zone)

  -- The insert, once the credentials and the role are accepted.
  inserted :
      {hash : GoString}
      → validate_credentials texts (normalize_email texts email) password ≡ ok tt
      → (role_id_by_code role ==ℤ pos 0) ≡ false
      → hash_password bcrypt password ≡ ok hash
      → registration ≡ (
        UserRepository.created zone (insert_user (user_row_of hash) db).0,
        quiet (insert_user (user_row_of hash) db).1 zone,
      )
  unfolding register UserRepository.create on_result run_sql
  inserted valid known made = rw (valid, known) (rw made)

  row-inserted :
      (hash : GoString) {user : User}
      → UserRepository.created zone (insert_user (user_row_of hash) db).0 ≡ ok user
      → (insert_user (user_row_of hash) db).1 ≡ after hash
  unfolding insert_user
  row-inserted hash e = elim (Option-cases (first_violation (user_tests (user_row_of hash) db))) [
    | inl passed ↦ rw passed refl
    | inr (x, violated) ↦ absurd (created-failed zone x (rw violated at e))
  ]

  invalid-fails :
      {x : Error}
      → validate_credentials texts (normalize_email texts email) password ≡ err x
      → registration.0 ≡ err x
  unfolding register
  invalid-fails invalid = rw invalid refl

  unknown-fails :
      validate_credentials texts (normalize_email texts email) password ≡ ok tt
      → (role_id_by_code role ==ℤ pos 0) ≡ true
      → registration.0 ≡ err (domain invalid_request)
  unfolding register
  unknown-fails valid unknown = rw (valid, unknown) refl

  unhashed-fails :
      {x : Error}
      → validate_credentials texts (normalize_email texts email) password ≡ ok tt
      → (role_id_by_code role ==ℤ pos 0) ≡ false
      → hash_password bcrypt password ≡ err x
      → registration.0 ≡ err x
  unfolding register
  unhashed-fails valid known unhashed = rw (valid, known) (rw unhashed refl)

  hashed-Registered :
      {user : User} {w' : World} {hash : GoString}
      → registration ≡ (ok user, w')
      → validate_credentials texts (normalize_email texts email) password ≡ ok tt
      → (role_id_by_code role ==ℤ pos 0) ≡ false
      → hash_password bcrypt password ≡ ok hash
      → Registered w'
  hashed-Registered {w'} {hash} e valid known made =
      let done_so = inserted valid known made in
      record {
        hash = hash;
        made = hash-made bcrypt password made;
        valid = valid;
        known = known;
        left =
            sym (ap (λ p. p.1) e)
            ∙ (ap (λ p. p.1) done_so
                ∙ ap (λ d. quiet d zone)
                    (row-inserted hash (sym (ap (λ p. p.0) done_so) ∙ ap (λ p. p.0) e)));
      }

  registration-Registered :
      {user : User} {w' : World} → registration ≡ (ok user, w') → Registered w'
  registration-Registered e =
      let worked =
        λ (x : Error) (fails : registration.0 ≡ err x). ok-ne-err (sym (ap (λ p. p.0) e) ∙ fails) in
      elim (Result-cases (validate_credentials texts (normalize_email texts email) password)) [
        | inr (x, invalid) ↦ absurd (worked x (invalid-fails invalid))
        | inl (u, valid) ↦ elim (Bool-cases (role_id_by_code role ==ℤ pos 0)) [
          | inl unknown ↦ absurd (worked (domain invalid_request) (unknown-fails valid unknown))
          | inr known ↦ elim (Result-cases (hash_password bcrypt password)) [
            | inr (x, unhashed) ↦ absurd (worked x (unhashed-fails valid known unhashed))
            | inl (hash, made) ↦ hashed-Registered e valid known made
          ]
        ]
      ]

  login-after :
      (laws : BcryptLaws bcrypt) (now later : Time) (address : GoString) {w' : World}
      → Registered w'
      → normalize_email texts address ≡ normalize_email texts email
      → login jwt bcrypt texts uuid_string manager now later address password w'
        ≡ (generate jwt manager now later (uuid_string new_id) role token_ttl, w')
  unfolding login UserRepository.get_by_email select_user_by_email on_result run_sql user_of_row
      check_password
  login-after laws now later address r same =
      rw (r.left, same, r.valid, text_eq_refl (normalize_email texts email))
        (rw (laws.not_empty password r.hash r.made)
          (rw (laws.compares password r.hash r.made, role_code-role_id role r.known) refl))

  -- With no other client and a connection that does not fail, after Register has succeeded, Login
  -- with the same password and any spelling of the address that normalizes to the same gives out
  -- the token that is generated for the new user with the role asked for, and changes nothing.
  pub login-register :
      (laws : BcryptLaws bcrypt) (now later : Time) (address : GoString) {user : User} {w' : World}
      → register jwt bcrypt texts uuid_string manager db_now new_id email password role
          (quiet db zone)
        ≡ (ok user, w')
      → normalize_email texts address ≡ normalize_email texts email
      → login jwt bcrypt texts uuid_string manager now later address password w'
        ≡ (generate jwt manager now later (uuid_string new_id) role token_ttl, w')
  login-register laws now later address e same =
      login-after laws now later address (registration-Registered e) same
