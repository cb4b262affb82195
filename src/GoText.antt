-- ===== src/GoText.antt =====
-- What the code uses of Go's packages strings, bytes, unicode and strconv, over lists of code
-- points or bytes. These are the documented functions of the standard library, and no code of the
-- repository.
pub mod Decimal
pub mod Prefix
pub mod Regexp
pub mod Replace
pub mod Space
pub mod Split
