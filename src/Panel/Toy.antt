-- ===== src/Panel/Toy.antt =====
-- Small stand-ins for the crates that the records Jwt, UuidText, Argon2 and Crypto describe, for the
-- tests: they satisfy what is assumed of the crates, and protect nothing.
pub mod Tokens
pub mod Cipher
