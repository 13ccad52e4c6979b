-- ===== src/Text.antt =====
-- Texts, as packages strconv and strings walk them.
pub mod Decimal
pub mod Fields
pub mod Match
pub mod Found
