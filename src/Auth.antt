-- ===== src/Auth.antt =====
-- internal/auth, file by file.
pub mod Hash
pub mod Tokens
pub mod Sessions
pub mod ApiTokens
pub mod Slug
pub mod Jwt
pub mod Password
pub mod Service
pub mod Middleware
pub mod OauthState
pub mod Oauth
pub mod Keys
