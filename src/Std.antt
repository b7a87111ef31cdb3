-- ===== src/Std.antt =====
-- What the program uses of the C++ standard library.
pub mod Decimal
pub mod SizeT
pub mod Map
pub mod Calls
