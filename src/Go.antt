-- ===== src/Go.antt =====
-- What the program uses of the Go language and its standard library: errors and panics as values,
-- calls of a remote service as functions on its state, strings, hex, numbers and maps.
pub mod Outcome
pub mod Strings
pub mod Hex
pub mod Decimal
pub mod Dict
pub mod Machine
