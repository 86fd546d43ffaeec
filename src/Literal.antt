-- ===== src/Literal.antt =====
-- Map and list literals: how the compiler writes them into the string pool and the machine reads them back.
-- src/include/vpp/bytecode/literal_wire.h, src/compiler/codegen.cpp and src/runtime/literal.cpp.
pub mod Types
pub mod Wire
pub mod Encode
pub mod Decode
pub mod Evaluate
pub mod Laws
pub mod RoundTrip
mod Tests
