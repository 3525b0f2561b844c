-- ===== src/Errors.antt =====
-- include/td365/error.h: the errors of the library as error codes. No other code uses them.
pub mod Codes
pub mod Throwing
