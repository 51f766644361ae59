-- ===== src/Oauth.antt =====
-- internal/oauth: the state tokens and the stored tokens of "Connect with Discord". HMAC-SHA256,
-- base64, JSON and the random nonces are arguments.
pub mod Nonces
pub mod State
pub mod Redeem
pub mod Tokens
pub mod Exchange
