-- ===== src/Lib.antt =====
-- zlvm: the virtual machine, its image format, its linker and its assembler.
--
-- The machine (emulator/src, include) executes 8-byte instructions from one address space: 4096
-- bytes of ROM from address 0 on, then the RAM. The main loop (vm_run) fetches eight bytes at the
-- program counter, decodes them (emulator/src/Instruction.c), tests the condition against the
-- status register, executes, and lets the arithmetic unit (emulator/src/ALU.c) compute. An error
-- is a state of the status register; the first one stays, and ends the loop.
--
-- Files and what they model:
--   Prelude      numbers of a fixed width, integers, lists as arrays, and their lemmas
--   Alu          include/ALU.h, emulator/src/ALU.c: alu_compute, alu_setFlags, alu_reset
--   Opcode       include/Opcode.h, emulator/src/Opcode.c
--   Condition    include/Condition.h, emulator/src/Condition.c
--   Bytes        the loops over little-endian bytes of emulator/src/Instruction.c
--   Instruction  include/Instruction.h, emulator/src/Instruction.c
--   Outcome      bool results with an error: set_error and the early returns after it
--   Image        include/Image.h, emulator/src/Image.c: the readers
--     Decode     zl_image_decode: the header and the loop over a table
--     Records    zl_image_decode: the records and the whole function
--     WellFormed what an accepted image promises
--   Vm           include/VirtualMachine.h, State.h, CPSR.h, Registers.h and
--                emulator/src/VirtualMachineInternal.c: the state and its life cycle
--     Valid      the invariant, and the memory as one flat array
--     Memory     vm_validate_range, vm_effective_address, vm_read_*, vm_write_*
--     Stack      vm_pop_word, vm_push_word
--     Condition  vm_check_condition, vm_do_operation
--     Switch     the cases of vm_run_instruction, vm_interrupt, vm_syscall
--     Execute    vm_run_instruction around its switch
--     Run        vm_fetch_instruction, vm_run, vm_loadDump
--     Image      vm_loadImage
--   Linker       include/Linker.h, emulator/src/Linker.c: placement of sections
--     Symbols    the symbol table
--     Relocate   the relocations
--     Link       zl_link_objects, up to the image that it encodes
--   Asm          include/asm/zlasm.h, include/asm/Token.h, asm/src/Error.c: diagnostics and tokens
--     Literals   asm/src/Token.c: the values of tokens
--     Directive  include/asm/Directive.h, asm/src/Directive.c: directives and the bytes of data
--     Lexer      include/asm/Lexer.h, asm/src/Lexer.c: characters and the cursor
--       Read     lexer_readToken, and the loop of assemble_source (asm/src/zlasm.c) over it
--     Macros     asm/src/Macros.c: definitions, invocations and their expansion
--     Parser     include/asm/Line.h, include/asm/Statement.h, asm/src/Parser.c
--     Sections   include/asm/Assembler.h, asm/src/Assembler.c: sections and recorded lines
--       Validate validate_directive
--       Process  asm_processDirectives
--       Labels   asm/src/LabelTable.c and asm_processLabels
--     Operands   validate_operands, parse_condition, parse_register
--     Translate  asm_translate
--     Object     asm_translate_object, up to the image that it encodes
--     Assemble   assemble_source (asm/src/zlasm.c)
--   Tests        the theorems at concrete machines and programs
--
-- A function of the source takes the machine and returns it, with the function's own result first.
-- An out parameter of a function that returns bool is an Option, and a NULL pointer is none. A
-- word is a natural number below 2 ^ 32; every conversion that can lose bits is written as a
-- remainder. The arrays are lists; a read out of range, which C leaves undefined, gives 0.
-- The console is part of the state: the bytes that can still be read, and those written.
--
-- An image file is read as a list of bytes. An allocation may fail: a function of the caller's
-- choice says of each call of malloc or calloc whether it succeeds. The loops over tables recur on the
-- counts of the header, and need no fuel.
--
-- The assembler runs its passes in order: the lexer makes tokens of the source, macros are
-- expanded, the parser makes lines of the tokens; directives place the lines in sections, labels
-- get addresses, and the lines are translated. Its functions leave by longjmp with a diagnostic,
-- which is a refused result here. A text is the list of its bytes before the NUL. Its memory
-- comes from wrappers that end a run with a diagnostic when an allocation fails; here they
-- succeed. The lexer, the capture of macros and the parser recur on fuel: one more than the
-- characters or the tokens is enough. The expansion of macros recurs on the room of its stack,
-- 64. A char has a sign, as on x86.
--
-- A program may run for ever, so run_loop takes fuel, and vm_run returns none when it is used up.
--
-- Not modelled: zl_image_encode, hence the last call of zl_link_objects and of asm_translate_object;
-- what writes to the console
-- for diagnosis (print_registers, instruction_print, token_print, line_print); the allocation
-- wrappers of the machine, which end the process on failure; the command lines.
pub mod Prelude
pub mod Alu
pub mod Opcode
pub mod Condition
pub mod Bytes
pub mod Instruction
pub mod Outcome
pub mod Image
pub mod Vm
pub mod Linker
pub mod Asm
pub mod Tests
