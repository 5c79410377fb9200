-- ===== src/Lib.antt =====
-- The C parts of the repository: the uBPF virtual machine in tools/ubpf/vm, which loads eBPF code
-- from ELF files, interprets it and compiles it to x86-64, and the Etherbone client in
-- tools/wishbone-utils/libeb-c.
--
-- The parts and their files:
--
-- - Base: Boolean tests, lists, integers and machine words over native numbers. A w-bit word is a
--   number below 2 ^ w; signed C types are kept as their two's complement patterns. Base.Held says
--   what is held after a list of acquisitions and releases.
-- - Ebpf (tools/ubpf/vm/ebpf.h): Ebpf.Inst is `struct ebpf_inst`. Ebpf.Opcode has a constructor
--   for each family of `EBPF_OP_…` macros; `opcode_value` is the macro's value, and `decode` the
--   case of the switch that an opcode byte enters. Ebpf.Encoding has the bytes of an instruction
--   on the little-endian host.
-- - Vm (tools/ubpf/vm/ubpf_vm.c, ubpf_int.h): Vm.State is `struct ubpf_vm` with `ubpf_create`,
--   `toggle_bounds_check`, `ubpf_register` and `ubpf_lookup_registered_function`. Vm.Validate is
--   `validate`, one function for each part of its loop's body, with its messages as values.
--   Vm.Load is `ubpf_load`. Vm.Alu has the arithmetic cases of `ubpf_exec`, Vm.Memory the bytes
--   that loads and stores move, and Vm.Exec the function itself: `step` is one round of its loop,
--   a function from counter, registers and memory to the next state, a returned value, a reported
--   fault, or what C leaves undefined; `run` is the loop. The external functions are parameters:
--   each takes five words and the memory, and gives a word and the memory. So is `is_accessible`,
--   which says of an address and a size whether C defines the access, that is, whether it is an
--   aligned one in an object of the process: an access that passes the bounds check and is not is
--   undefined.
-- - Jit (tools/ubpf/vm/ubpf_jit_x86_64.h, ubpf_jit_x86_64.c): Jit.State is `struct jit_state` and
--   the functions that append to its buffer; a failed `assert` is an outcome of its own. Jit.Emit
--   has the instructions of the header, Jit.Translate `translate`, and below it `muldivmod`,
--   Jit.Resolve `resolve_jumps`, Jit.Compile `ubpf_compile`, where whether
--   `mmap` and `mprotect` succeed is an argument. Jit.Keeps has the relations that every write keeps, which Jit.Layout, where the
--   fields of the jumps lie, Jit.Starts, where the code of an instruction starts, and Jit.Targets,
--   which targets are recorded, all use; Jit.Lands puts them together. Jit.Registers is
--   `ubpf_set_register_offset`, with `rand_r` as a parameter. The map of the registers, and the
--   addresses of `fprintf`, `stderr` and the format string, are parameters of `translate`, in
--   Host.
-- - Elf (tools/ubpf/vm/ubpf_loader.c): `ubpf_load_elf`. Elf.File has the file as bytes, with the
--   errors of the loader and its accesses outside a buffer as outcomes; Elf.Sections the headers
--   and the choice of the text section, Elf.Relocate the relocations, Elf.Load the whole. A
--   symbol's name is read by `c_string` and looked up in the machine.
-- - Driver (tools/ubpf/vm/test.c): the command line. Driver.ReadFile is `readfile`, Driver.Options
--   the loop over the options, Driver.Main the rest of `main`, a function for each stretch between
--   two calls that may fail. The streams, the other calls of the C library and the system, and the
--   run of compiled code are parameters, in Stdio and Process. `io_after` has the streams as they
--   are once the code has been read, which may have used up the standard input.
-- - Etherbone (tools/wishbone-utils/libeb-c/etherbone.c): the packets of `eb_fill_read32` and
--   `eb_fill_write32`, and `eb_read32` and `eb_write32` over a socket that is a parameter.
--   Etherbone.Connect has the choice of the socket calls, and `eb_connect` and `eb_disconnect` as
--   lists of what they acquire and release, where the replies of the C library and the system are
--   arguments.
-- - Lifetime (tools/ubpf/vm/ubpf_vm.c, ubpf_jit_x86_64.c): what `ubpf_create`, `ubpf_load` and
--   `ubpf_compile` allocate and free, as lists of events on blocks named by the pointers that own
--   them, and `ubpf_destroy`; a call that fails allocates its message, which its caller frees,
--   as inc/ubpf.h asks. The allocations of `ubpf_compile` and of messages succeed, as the source
--   assumes.
-- - X86: no code of the repository, but what the emitted code is held against: the format of the
--   x86-64 instructions that the compiler writes for registers and jumps (X86.Format), and what
--   they do to registers and flags (X86.Machine), as the manual of the architecture has them.
--   Jit.Writes has the bytes that the emitters append; X86.Reads and X86.Instructions read them
--   back, X86.Values compares what the processor computes with Vm.Alu, and X86.Alu, X86.Cases,
--   X86.Agrees, X86.Block, X86.Jumps and X86.Branch put this together for `translate`. Covered are
--   the instructions that compute a register, but not multiplication, division and remainder, the
--   32-bit move between registers, the 32-bit shift to the left by 32 or more, `EBPF_OP_LE`, and
--   the swap of 16 bits; and the conditional jumps.
--
-- How they interact: `main` creates a machine, loads the file into it by `ubpf_load_elf` or
-- `ubpf_load`, and runs `ubpf_exec` or `ubpf_compile` on it. `ubpf_load_elf` finds the functions
-- that a file calls by `ubpf_lookup_registered_function`, and ends with `ubpf_load`. `ubpf_load`
-- calls `validate` and stores the code in the machine; `ubpf_exec` and `ubpf_compile` read it from
-- there. Nothing but these and `ubpf_compile` changes the code of a machine. `translate` records
-- the jumps that `resolve_jumps` completes.
--
-- Bounds and fuel: code has fewer than 65536 instructions, the counter is a 16-bit number, and
-- addresses wrap at 2 ^ 64. `run` takes fuel, one unit for each round, since the loop of
-- `ubpf_exec` need not end: a program may jump backwards; `readfile` has one unit more than the
-- bytes it may read. All other functions recur on their lists or on a number that the source
-- fixes, such as the 64 entries of the function table. The JIT buffer has 65536 bytes.
--
-- Not modelled: `ubpf_error`, which formats a message; the meaning of the emitted x86-64 code for
-- loads, stores, calls, multiplication and division, which needs the memory and the stack of the
-- processor; which address `eb_connect` resolves and binds; the processor in Verilog; the tools in
-- Python and Rust; and the copies of libusb.
pub mod Base
pub mod Ebpf
pub mod Vm
pub mod Jit
pub mod Elf
pub mod Driver
pub mod Etherbone
pub mod Lifetime
pub mod X86
