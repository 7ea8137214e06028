-- ===== src/Value.antt =====
-- The package internal/value: data values and their compact and full encodings.
pub mod Pack
pub mod Limits
pub mod Ranges
pub mod Set
pub mod Hash
pub mod Lists
pub mod Union
mod Tests
