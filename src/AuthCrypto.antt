-- ===== src/AuthCrypto.antt =====
-- servers/authserver/auth_crypto.{h,cpp}: the certification data of the auth server, encrypted by
-- RC5-32/16 in CBC mode with PKCS#7 padding and written as hexadecimal text.
pub mod Rc5
pub mod Hex
pub mod Cbc
pub mod RoundTrip
