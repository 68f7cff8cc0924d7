-- ===== src/Lib.antt =====
-- vmir: an LLVM bitcode parser, compiler to a register machine and interpreter in C, whose programs
-- run in one block of memory with a small libc.
--
-- A bitcode file is read bit by bit (src/vmir_bitstream.c). The parser turns its records into tables
-- of types, values and functions (src/vmir_bitcode_parser.c, src/vmir_type.c), which are transformed
-- and compiled; the interpreter runs the result, and the program's calls of libc reach an allocator
-- and a table of open files (src/vmir_libc.c).
--
-- The files:
--   Common          names of the libraries, tests, lists, bits and words for the other files
--   Bitstream       src/vmir_bitstream.c: `bcbitstream_t` is the record Bitstream; read_bits,
--                   align_bits32, read_vbr and read_vbr64 take and return it
--   Argv            src/vmir_bitstream.c: the readers of strings and rotated integers from a record
--   Heap            src/vmir_libc.c: the first-fit allocator, its queue a list of blocks in address
--                   order; Heap/Libc has realloc and the entries that programs call
--   Files           src/vmir_libc.c: the table of open files and the calls that go through it
--   Types           src/vmir_type.c: the table of types, sizes, the layout of structs, and the
--                   handler of type records
--   Parser          src/vmir_bitcode_parser.c and src/vmir_value.c: the record IrUnit has the fields of
--                   `ir_unit` that the records of a module set; Unabbrev reads a record, Module, Attributes
--                   and Constants have the handlers, and Values the end of the list of values
--   Vm              src/vmir_vm.c and src/vmir_vm.h: Vm has the opcodes and the text of a function, a
--                   list of half words; Alu the C operators on words; Frame the registers, bytes
--                   at the address that `rf` points to; Exec the interpreter vm_exec, one function
--                   per group of opcodes and `step` for a round of its loop; Emit the emitters from
--                   emit_op to instr_emit, and branch_fixup
--   Tests           runs on concrete inputs, and the theorems at concrete inputs
--
-- State is passed explicitly, and asserts and parser errors are values. An `int` or `unsigned` is its
-- 32-bit pattern, a native number, and the wrap-around is written out. The layouts of C structs are
-- those of a 64-bit host with the low byte first.
--
-- Loops recur on their data where they walk a list. The bit reader's loop runs on fuel `num`, since a
-- round takes a bit or ends; the variable-width loops on one more than the number of bits of the data;
-- sizes of nested arrays on the length of the table, which is enough if elements precede their
-- arrays; the loop over the attributes of a group on one more than the arguments in the memory from
-- the record on, which every round goes on in; type_struct_layout on one step for each struct inside
-- another, for which types_finalize gives one more than the length of the table: only a struct inside
-- itself goes deeper.
--
-- The machine's step is a function from the place in the text and the registers to the next ones;
-- Reaches is any number of steps. Theorems on the emitters say what the emitted code does in front of
-- and behind any other code. The binary search of a switch runs on the number of its paths, which is
-- enough since a round leaves fewer. Where C leaves the result of an operation open, as of a division
-- by zero, a shift as wide as its operand or a product of ints from 2 ^ 31, the machine has no next state.
--
-- Not modelled: TLSF (a vendored allocator), the JIT, the command line, printing, and stdio, which
-- call the host; of the parser, abbreviations, blocks, symbols and instruction records; the
-- transformations; of the interpreter and the emitters, loads and stores, address computations, calls,
-- the stack, and libc operations. The file system is a parameter of Files, a record of the operations
-- that the embedder passes, and the arithmetic of floats and doubles on their bit patterns is one of
-- Exec, the record Fpu.
pub mod Common
pub mod Bitstream
pub mod Argv
pub mod Heap
pub mod Files
pub mod Types
pub mod Parser
pub mod Tests
pub mod Vm
