-- ===== src/Login.antt =====
-- JwtAuth.h: the login frame and the checks of its token.
pub mod Token
pub mod Fields
pub mod Verify
pub mod Frame
pub mod Soundness
pub mod Roles
