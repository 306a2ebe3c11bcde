-- ===== src/Convert.antt =====
-- tools/convert/src: from gnark's and arkworks' encodings to the on-chain bytes.
pub mod Publishable
pub mod Errors
pub mod Ark
pub mod Wire
pub mod Arkworks
pub mod Gnark
