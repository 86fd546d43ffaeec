-- ===== src/Bytecode.antt =====
-- src/bytecode and src/include/vpp/bytecode: the instruction set, its verifier, and the wire format
-- of literals.
pub mod Opcode
pub mod Intrinsic
pub mod Foreign
pub mod Verifier
mod Tests
