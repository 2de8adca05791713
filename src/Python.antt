-- ===== src/Python.antt =====
-- What the client uses of Python: text and byte methods, UTF-8, decimal numbers.
pub mod Split
pub mod Utf8
pub mod Decimal
