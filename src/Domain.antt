-- ===== src/Domain.antt =====
-- The domain objects of src/crypto_trader/domain: the enumerations and the records.
-- An identifier, a symbol, a currency and a reason text are only compared and tested for being
-- empty, so each is a number, and 0 is the empty text. A time is its distance from the epoch.
pub mod Enums
pub mod Models
pub mod Money
