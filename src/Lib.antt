-- ===== src/Lib.antt =====
-- The V++ implementation: its text helpers, its package versions and the solver of their graph, its bytecode
-- and literals, its garbage-collected heap, and the control flow of its virtual machine.
--
-- The parts and the files that model them:
--   * Prelude: numbers, lists, integers, orders and byte strings that every part uses. A `std::string`
--     is the list of its bytes; an `int` that can be negative is a `ℤ` (`pos`, `negsuc`), and
--     `to_size` is its conversion to `std::size_t` (a negative one wraps around).
--   * Text: src/core/text.cpp. The bytes from an offset on are a list, and a loop that adds the length of
--     a unit to its offset steps over that many bytes. Text/Scalars and Text/Slice compare it with the
--     encoding of scalar values.
--   * Semver: src/core/semver.cpp and src/include/vpp/core/semver.h. Semver/Types has the structs and
--     the errors (one constructor for each message of the catalogue), Semver/Compare is
--     `compareSemanticVersion`, Semver/Parse is `SemanticVersion::parse` and `toString`, and Semver/Range
--     is `VersionRange::parse` and `matches` with the bounds of `^` and `~`. A cursor into a text is the
--     text from the cursor on. The package layer reads the versions of manifests with these functions.
--   * Registry: the choice of a version in src/core/package_source.cpp (`materializeRegistrySource`), on
--     a directory that is given as the list of its entries with what is read of their manifests.
--   * Solver: src/core/package_solver.cpp. Solver/Types has the data, Solver/Range is `validateRange`,
--     which calls the functions of Semver, and Solver is `resolveDependency` and `solve`. The members of
--     the class are the record `Solver`; the file system, the materializer, what `readProjectManifest`
--     reads and `std::sort` are the fields of `World`, with what sorting keeps and adds as hypotheses
--     (`SortKeeps`, `SortAdds`). Solver/Invariant and Solver/Steps have the invariant of the state,
--     Solver/Edges what a resolved graph is, Solver/Ends the bound on the depth.
--   * Bytecode: Bytecode/Opcode is src/include/vm/instruction.h with the switches of
--     src/bytecode/opcode.cpp; Bytecode/Intrinsic is src/include/vpp/bytecode/intrinsic.h;
--     Bytecode/Foreign and Bytecode/Verifier are src/bytecode/verifier.cpp. A raw opcode is an integer;
--     `of_raw` gives the enumerator it names. The verifier runs before the machine does, and what it
--     accepts is what the handlers rely on: Bytecode/Verifier/Control and Bytecode/Verifier/Pool state
--     that as predicates on one instruction.
--   * Literal: the map and list literals of the string pool. Literal/Wire is
--     src/include/vpp/bytecode/literal_wire.h, Literal/Encode the encoder of src/compiler/codegen.cpp (with
--     `stripQuotes` of src/frontend/lexer.cpp), Literal/Decode is src/runtime/literal.cpp, and
--     Literal/Evaluate says what a literal means without the text in between. `std::stoi` and `std::stod`
--     are parameters; a decoded handle is given as what it holds.
--   * Heap: src/runtime/heap.cpp. Heap/Value is the part of src/include/vpp/runtime/value.h that the
--     collector follows, with a `Store` for the shared objects, and Heap/Integers its integers of the C
--     ABI; Heap/Mark is `markValue`, Heap/Registry the weak registries and `track`, Heap/TrackValue is
--     `trackValue`, Heap/Collect is `collect`. When the last owner of an object is gone and where an
--     object stands in memory are parameters. Heap/Graph is reachability, which the marking is compared
--     with.
--   * Vm: the handlers of src/runtime/vm.cpp that choose the next instruction, as functions from an
--     instruction and a machine to an outcome (Vm/State: go on, moved, failed, thrown). Vm/Jump is
--     `executeBranchOpcode`, Vm/Switch is `executeSwitchOpcode`, Vm/Blocks is
--     `executeLoopControlOpcode` and `executeBlockOpcode`, Vm/Exceptions is `executeExceptionOpcode` with
--     `transferThrownValue`, Vm/Variables the reading of a variable (`OP_TEN_BIEN_GIA_TRI`) with the
--     frame of src/include/common/vm_callframe.h; Vm/Control calls the handler of an opcode. A vector that is used as a stack
--     is a list with its top in front. Vm/Modules is src/runtime/module.cpp with
--     `VM::initializeModules`; what an initializer does is a parameter.
--
-- Loops are recursion on the list that is left, or on fuel: the identifiers of a version have as much
-- fuel as the text has bytes and one more, decimal printing as much as the number and one more, and the
-- scans of the machine as many steps as there are instructions left. The fuel of a marking is more than the
-- objects of a closed set and the values they hold, that of the solver more than the names of the
-- packages, that of the encoder of literals more than the values of the program, and that of the
-- decoder more than the bytes of the text. A signed addition that would overflow gives the error `signed_overflow`; the depth of the blocks is a number without a bound.
-- The conversions of the C++ library that the cases of a switch use (`std::stoi`, `std::to_string`, the
-- conversion of a `double`) and the string pool are the fields of `Host`, a parameter.
--
-- Not modelled: the lexer and the parser, the compiler but for its literals, the arithmetic, assignment, call and
-- object handlers of the machine, the scopes of the active heap, the other package sources and the
-- manifests, foreign calls, native code, and the tools: they are large or wrap the operating system, and
-- parts of them can follow.
pub mod Prelude
pub mod Text
pub mod Semver
pub mod Registry
pub mod Solver
pub mod Bytecode
pub mod Heap
pub mod Literal
pub mod Vm
