-- ===== src/Identity.antt =====
-- packages/adopt-identity/src/adopt_identity/uri.py: the identity URI.
pub mod Texts
pub mod Uris
pub mod Segments
pub mod RoundTrip
mod Samples
