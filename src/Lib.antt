-- ===== src/Lib.antt =====
-- The C virtual machine of ARMLivingObjects: a Smalltalk system whose objects live in a paged,
-- persistent object memory.
--
-- Parts of the program and the files that model them:
--   Tagged         src/c_vm/tagged.c, the tags of src/c_vm/vm_defs.h: small integers, characters,
--                  nil and Booleans as 64-bit words.
--   Memory         the object layout of src/c_vm/vm_defs.h over word-addressed memory; `Machine` is
--                  memory with the registers that the functions update through `sp_ptr`, `fp_ptr`
--                  and `ip_ptr`.
--   Stack          src/c_vm/stack_ops.c, the checked operand stack.
--   Frame          src/c_vm/frame.c: `activate_method`, `activate_context`, `frame_return` and the
--                  frame accessors.
--   Bytecode       src/c_vm/bytecode.c, the bytecode operations on their own.
--   Lookup         src/c_vm/lookup.c: `oop_class`, `md_lookup`, `class_lookup`.
--   ObjectMemory   src/c_vm/object.c: registration and page metadata (Pages), allocation and the walk
--                  over objects (Alloc). The parallel tables are one list of records.
--   Slots          the conversion of words between pointers and offsets, in src/c_vm/object.c,
--                  src/c_vm/interpret.c and src/c/primitives.c.
--   DurableLog     `txn_log_append_fsync` and `txn_log_replay` of src/c/primitives.c; the file is a
--                  list of 64-bit words, and `Disk` says which write or `fsync` fails.
--   Checkpoint     src/c_vm/checkpoint.c, the validation of a checkpoint file; Save and Image are the
--                  checkpoint primitive of src/c_vm/interpret.c that writes one. A file is a list of
--                  bytes, and `FileSystem` says which operation on files fails.
--   Symbols        the symbol table, string primitives and hashes of src/c/primitives.c, and in
--                  Dictionary the globals and the reflective primitives.
--   Capture        `ensure_frame_context` of src/c/primitives.c: frames stored as Context objects.
--   Collection     the roots and the exchange of the spaces of `collect_and_retry_allocation` in
--                  src/c_vm/interpret.c; the chains of frames are lists.
--   Primitives     the primitives of src/c_vm/interpret.c on small integers, characters and object
--                  identity.
--   Tokenizer      `bt_next` of src/c/bootstrap_compiler.c; the source is a list of bytes.
--   Header         `bc_parse_method_header` of src/c/bootstrap_compiler.c, on the tokens of Tokenizer.
--   CodeGen        the code buffer and literal table of src/c/bootstrap_compiler.c, and `read_u32` of
--                  src/c_vm/interpret.c.
--   Base           shared names, Boolean tests, lists and words; Tests, concrete inputs.
-- Lookup reads objects in memory; activation allocates nothing, a capture allocates by ObjectMemory,
-- and so does interning a symbol; a checkpoint reads the pages and their metadata from ObjectMemory and
-- converts words by Slots; the log's replay writes to memory and
-- marks pages of ObjectMemory as dirty, and its values are converted by Slots.
--
-- Numbers are natural numbers, and a 64-bit result is reduced where the source's arithmetic can
-- wrap. A pointer that leaves its array is undefined in C: addresses do not wrap. `raise(SIGTRAP)`
-- ends the run (`trap`). Where an input reaches what C leaves undefined, `cg_literal_index` (a
-- literal past the 32 entries of the table) and the checkpoint primitive (closing a file that is
-- not open) answer `none`, and the number of an integer token wraps. Fuel: `class_lookup` takes
-- one unit for each class and one more; `txn_log_replay` one for each frame and one more; the walk
-- of a checkpoint over the objects of a page as much as the address of the page's end and one
-- more; a capture one for each caller without an object and one more. Other loops are recursions
-- on the count or the list that bounds them.
--
-- Not modelled: the assembly of src/arm (collector, transaction log in memory, first interpreter),
-- the interpreter loop of src/c_vm/interpret.c and its other primitives, among them the restart
-- from a checkpoint, the parser of method bodies and the rest of the code generator of
-- src/c/bootstrap_compiler.c, the file descriptor primitives of src/c/primitives.c, the tools, and
-- failing `malloc` and `calloc`.
pub mod Base
pub mod Bytecode
pub mod Capture
pub mod Checkpoint
pub mod CodeGen
pub mod Collection
pub mod DurableLog
pub mod Frame
pub mod Header
pub mod Lookup
pub mod Memory
pub mod ObjectMemory
pub mod Primitives
pub mod Slots
pub mod Stack
pub mod Symbols
pub mod Tagged
pub mod Tests
pub mod Tokenizer
