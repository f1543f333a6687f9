-- ===== src/Std.antt =====
-- The parts of Go's standard library that the service calls: package strings (`Strings`), package
-- path with `filepath.Ext` on Unix (`Path`), package encoding/hex (`Hex`), the
-- verb %d of package fmt (`Format`), and what is printed of URLs by package net/url (`Url`).
pub mod Format
pub mod Hex
pub mod Path
pub mod Strings
pub mod Url
