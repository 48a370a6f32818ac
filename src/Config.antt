-- ===== src/Config.antt =====
-- internal/config/config.go. `env` is `os.Getenv`: the value of a variable, empty if it is not
-- set.
use room_booking.Base.{
  List, [], ◌∷◌, keep, map, GoString, codes, ◌++◌, text_eq, trim_space, if◌then◌else◌, ◌≡◌, refl,
  arith, sym,
}

pub record Config : Type 0 where
  pub http_port : GoString
  pub db_dsn : GoString
  pub jwt_secret : GoString

-- The configuration, or `ErrMissingEnv` with the text after it.
pub data Loaded : Type 0 where
  config : Config → Loaded
  missing_env : GoString → Loaded

-- `strings.Join`.
unfoldable pub join : GoString → List GoString → GoString
join separator [] = []
join separator (s ∷ []) = s
join separator (s ∷ t ∷ rest) = s ++ (separator ++ join separator (t ∷ rest))

-- `if value == "" { missing = append(missing, name) }`
abbrev pub note_missing : GoString → GoString → List GoString → List GoString
note_missing value name missing = if text_eq value (codes "") then missing ++ name ∷ [] else missing

abbrev pub checked : Config → List GoString → Loaded
checked cfg [] = config cfg
checked cfg (name ∷ names) = missing_env (join (codes ", ") (name ∷ names))

unfoldable pub load : (GoString → GoString) → Loaded
load env =
    let cfg : Config = record {
      http_port = trim_space (env (codes "HTTP_PORT"));
      db_dsn = trim_space (env (codes "DB_DSN"));
      jwt_secret = env (codes "JWT_SECRET");
    } in
    checked cfg (
      note_missing cfg.jwt_secret (codes "JWT_SECRET") (
        note_missing cfg.db_dsn (codes "DB_DSN")
          (note_missing cfg.http_port (codes "HTTP_PORT") [])))

-- A variable that has to be set: its name, and what is taken from it.
pub record Variable : Type 0 where
  pub name : GoString
  pub value : GoString

abbrev pub variables : (GoString → GoString) → List Variable
variables env =
    record { name = codes "HTTP_PORT"; value = trim_space (env (codes "HTTP_PORT")) }
    ∷ record { name = codes "DB_DSN"; value = trim_space (env (codes "DB_DSN")) }
    ∷ record { name = codes "JWT_SECRET"; value = env (codes "JWT_SECRET") }
    ∷ []

-- The names of the variables without a value, in their order.
abbrev pub unset : List Variable → List GoString
unset vs = map (λ (v : Variable). v.name) (keep (λ (v : Variable). text_eq v.value (codes "")) vs)

abbrev pub read : List Variable → List GoString
read vs = map (λ (v : Variable). v.value) vs

abbrev pub fields : Config → List GoString
fields cfg = cfg.http_port ∷ cfg.db_dsn ∷ cfg.jwt_secret ∷ []

-- What `Load` is to return: the values, all there, or the error with all names without a value.
pub data Complete (vs : List Variable) : Loaded → Type 0 where
  all_set : (cfg : Config) → unset vs ≡ [] → fields cfg ≡ read vs → Complete vs (config cfg)
  some_missing :
      (name : GoString) (names : List GoString)
      → unset vs ≡ name ∷ names
      → Complete vs (missing_env (join (codes ", ") (name ∷ names)))

noted :
    (a b c : GoString)
    → note_missing c
        (codes "JWT_SECRET")
        (note_missing b (codes "DB_DSN") (note_missing a (codes "HTTP_PORT") []))
      ≡ unset (
          record { name = codes "HTTP_PORT"; value = a }
          ∷ record { name = codes "DB_DSN"; value = b }
          ∷ record { name = codes "JWT_SECRET"; value = c }
          ∷ [])
noted a b c = ground arith

checked-Complete :
    (vs : List Variable) (cfg : Config) (names : List GoString)
    → names ≡ unset vs
    → fields cfg ≡ read vs
    → Complete vs (checked cfg names)
checked-Complete vs cfg [] none_unset same = all_set cfg (sym none_unset) same
checked-Complete vs cfg (name ∷ names) same _ = some_missing name names (sym same)

-- For every environment, Load returns the three values, trimmed but for the secret, when none of
-- them is empty, and else ErrMissingEnv with the names of exactly those that are empty, in their
-- order.
pub load-Complete : (env : GoString → GoString) → Complete (variables env) (load env)
unfolding load
load-Complete env =
    let port = trim_space (env (codes "HTTP_PORT")) in
    let dsn = trim_space (env (codes "DB_DSN")) in
    let secret = env (codes "JWT_SECRET") in
    checked-Complete (variables env)
      (record { http_port = port; db_dsn = dsn; jwt_secret = secret }) _ (noted port dsn secret)
      refl
