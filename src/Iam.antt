-- ===== src/Iam.antt =====
-- lib/aws/iam: percent-encoding, canonical requests and AWS signatures (version 4).
pub mod BoostUrl
pub mod Urlencode
pub mod Http
pub mod Canonicalize
pub mod Botan
pub mod Signature
