-- ===== src/Utils.antt =====
-- src/utils/utils.c: the tables of algorithm names, the two halves of an address prefix, and the
-- reading of a key in hexadecimal. Constants are those of src/constants.h.
pub mod Inet
pub mod Constants
pub mod Decimal
pub mod Algorithms
pub mod Address
pub mod Hex
pub mod HexLaws
pub mod Tables
