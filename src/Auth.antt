-- ===== src/Auth.antt =====
-- internal/auth: tokens and password hashes. The libraries golang-jwt and bcrypt are parameters.
pub mod Jwt
pub mod Password
