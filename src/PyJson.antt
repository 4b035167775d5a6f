-- ===== src/PyJson.antt =====
-- internal/pyjson: JSON printed the way of Python.
pub mod Strings
pub mod Reader
pub mod Unescaped
pub mod Ascii
pub mod Printable
pub mod Dumps
pub mod Documents
