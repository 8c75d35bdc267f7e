-- ===== src/Std.antt =====
-- What the code uses of the C++ standard library: containers, mutexes and file streams.
pub mod Bits
pub mod Bytes
pub mod Fstream
pub mod Ifstream
pub mod HashMap
pub mod HashSet
pub mod OrderedMap
pub mod Method
