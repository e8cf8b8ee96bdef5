-- ===== src/Symbol.antt =====
-- include/wirekrak/core/symbol: symbols and their identifiers.
pub mod Intern
