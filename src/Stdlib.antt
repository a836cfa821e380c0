-- ===== src/Stdlib.antt =====
-- The C library that the compiler is shipped with, a module for each file of stdlib/.
-- A C string is the list of bytes from the pointer to the end of the memory that may be read, a
-- byte being 0 to 255; a read past the end is a fault, `none`.
pub mod Ctype
pub mod Strings
pub mod Errno
pub mod File
pub mod Getopt
pub mod Printf
pub mod Syscall
pub mod Numbers
mod TestTape
mod FileTests
mod PrintfTests
mod Tests
