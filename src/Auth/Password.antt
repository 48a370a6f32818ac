-- ===== src/Auth/Password.antt =====
-- internal/auth/password.go over the library bcrypt.
use room_booking.Base.{GoString, codes, text_eq, Option, none, some, Bool, true, false, ◌≡◌}
use room_booking.Domain.Errors.{plain, Result, ok, err}

-- `GenerateFromPassword` with the salt that it draws, and `CompareHashAndPassword`.
pub record BcryptLibrary : Type 0 where
  pub generate_from_password : GoString → Option GoString
  pub compare_hash_and_password : GoString → GoString → Bool

-- What the library documents: a hash compares equal to its password, and it is not empty.
pub record BcryptLaws (lib : BcryptLibrary) : Type 0 where
  pub compares :
      (raw hash : GoString)
      → lib.generate_from_password raw ≡ some hash
      → lib.compare_hash_and_password hash raw ≡ true
  pub not_empty :
      (raw hash : GoString)
      → lib.generate_from_password raw ≡ some hash
      → text_eq hash (codes "") ≡ false

abbrev hashed : Option GoString → Result GoString
hashed none = err (plain "bcrypt")
hashed (some hash) = ok hash

abbrev pub compared : Bool → Result (Unit {0})
compared true = ok tt
compared false = err (plain "hashedPassword is not the hash of the given password")

module _ (lib : BcryptLibrary) where
  unfoldable pub hash_password : GoString → Result GoString
  hash_password raw = hashed (lib.generate_from_password raw)

  unfoldable pub check_password : GoString → GoString → Result (Unit {0})
  check_password hash raw = compared (lib.compare_hash_and_password hash raw)
