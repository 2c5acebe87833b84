-- ===== src/Xrpl.antt =====
-- src/xrpl and src/util: the codecs of currencies and hexadecimal texts.
pub mod Hex
pub mod Currency
pub mod Mpt
