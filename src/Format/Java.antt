-- ===== src/Format/Java.antt =====
-- src/format/java: class files. `Classfile` is the parser, `Bytecode` the walk over a method's code,
-- `Compact` the removal of dead code from a method, and `Methods` the dead methods of a class.
-- The conversion from UTF-8 is Rust's, and a parameter.
pub mod Classfile
pub mod Bytecode
pub mod Compact
pub mod Methods
