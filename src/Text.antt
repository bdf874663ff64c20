-- ===== src/Text.antt =====
-- Text as a list of UTF-16 code units, and the string operations that the sources use.
pub mod Document
pub mod ConstantTime
pub mod Phone
pub mod Template
mod Examples
