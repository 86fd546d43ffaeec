-- ===== src/Vm.antt =====
-- src/runtime/vm.cpp: the part of the virtual machine that chooses the next instruction, the
-- reading of a variable, and the initialization of the modules.
pub mod State
pub mod Safe
pub mod Jump
pub mod Switch
pub mod Variables
pub mod Blocks
pub mod Exceptions
pub mod Control
pub mod Modules
mod Tests
