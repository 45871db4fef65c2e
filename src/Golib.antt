-- ===== src/Golib.antt =====
-- The functions of Go's standard library that component/ calls, after their documentation.
pub mod Strings
pub mod Strconv
pub mod Decimal
pub mod Unquote
pub mod Scan
pub mod Unmarshal
pub mod Reading
