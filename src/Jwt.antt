-- ===== src/Jwt.antt =====
-- src/jwt: the token code.
pub mod Base64
pub mod Token
pub mod Payload
