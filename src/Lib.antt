-- ===== src/Lib.antt =====
-- simple-riscv-emulator: a RV32IM_Zicsr_Zicond machine-mode emulator.
--
-- One cycle of the emulator (main/src/emulator.cpp) steps the CPU (lib/core/cpu.cpp), which
-- fetches an instruction through its page cache, decodes it, computes, accesses a CSR and the
-- memory, writes the register file and moves the pc, or takes a trap; then the clock ticks and may
-- raise the timer interrupt in mip. The memory is an interconnect (main/src/platform.cpp,
-- lib/device/interconnect.cpp) of a ROM, a RAM, a UART and a clock.
--
-- The debugger (main/src/emulator-debug.cpp) runs the same cycles under the commands of GDB.
-- Packets (lib/gdb-stub/packet.cpp) carry commands (command.cpp) in and responses (response.cpp)
-- out; the accessor (accessor.cpp) reads and writes bytes and registers, the conditions of
-- breakpoints (stop-point.cpp) are programs of a stack machine (expression.cpp), and watchpoints
-- are kept by address range (addr-range.hpp).
--
-- Files and the code they model:
-- - Common and its children: Boolean tests on the native numbers, machine words (u8 to u64, i8 to
--   i64), integers, bits, lists, and results that may be errors.
-- - Bitset: lib/include/common/bitset.hpp. A `Bitset<N>` is a number below 2 ^ N.
-- - Core/NativeMath, Core/Alu: lib/core/alu.cpp.
-- - Core/RegisterFile, Core/Trap, Core/Inst: the headers of these names under lib/include/core.
-- - Core/Csr with Core/Csr/Status: lib/core/csr.cpp and lib/include/core/csr.hpp. The code writes
--   a CSR through a pointer to its 32 bits; the model names the CSR by `CsrName` and has one
--   function that reads its word and one that sets it.
-- - Core/Decode with Result, Groups and System: lib/core/decode.cpp.
-- - Core/Memory: lib/include/core/memory.hpp; `MemoryInterface` has the methods of the interface
--   on an explicit state, and Core/Memory/WordMemory states what a memory of words promises.
-- - Core/LoadStore, Core/InstFetch: lib/core/memory.cpp. `Outcome` tells a value from a trap and
--   from an exception of C++.
-- - Core/Cpu with State and HandleTrap: lib/core/cpu.cpp. `execute` is a chain of stages, one for
--   each early return. The fields of a result that the code leaves uninitialised are an argument.
-- - Device/BlockMemory, Device/Clock, Device/Uart: lib/device.
-- - GdbStub/Packet with Decoder and Encoder: lib/gdb-stub/packet.cpp; GdbStub/Text has the
--   functions of the C++ library on characters and ranges that the stub uses. A text is a list of
--   character codes.
-- - GdbStub/Expression with Bytecode, Step and Run: lib/gdb-stub/expression.cpp. The two functions
--   that an expression reads with are arguments on an explicit state.
-- - GdbStub/Accessor, GdbStub/StopPoint, GdbStub/AddrRange: the files of these names in
--   lib/gdb-stub and lib/include/gdb-stub.
-- - GdbStub/Command with Hex, Points, Supported, Query and Parse: lib/gdb-stub/command.cpp;
--   GdbStub/Response: lib/gdb-stub/response.cpp. GdbStub/OrderedMap: `std::map` as the parsers
--   fill it.
-- - EmulatorDebug with MemoryHandlers, RegisterHandlers, PointHandlers, RunHandlers and Handle:
--   main/src/emulator-debug.cpp. A map is an association list; that of the watchpoints is searched
--   by the order that the code gives to ranges.
-- - The children named for what they prove stand beside these: NativeMath/Signed, Division and
--   Shift, Alu/Bounds, RegisterFile/Laws, Csr/Masked, Valid, Results, Access and StatusAccess,
--   Inst/RoundTrip, Decode/Laws, LoadStore/Lanes, Bytes and Loads, InstFetch/Coherence,
--   Cpu/PreciseTrap, TrapEntry, TrapReturn, Total, Valid, Writeback, Invariant and Preserved,
--   BlockMemory/Contents, Merge, Interface, Stable, Supported and Words, Clock/Laws, Platform/Rom
--   and Steps, Emulator/Capture, Decoder/Invariant, Recovery and Calls, Encoder/Runs,
--   Packet/RoundTrip, Expression/Run/Leads, Jumps, Advance and Forward, Expression/Tree (the
--   values of expressions as trees) with Compiler and its children (programs of the stack machine
--   for trees) and Expression/Meaning, GdbStub/OrderedMap/Lookup, Accessor/Memory and Register,
--   StopPoint/Guard, Command/Digits, RoundTrip, Registers and Features, EmulatorDebug/Unaligned,
--   Points and Quiet. The runs at concrete inputs are in the modules Tests.
-- - Platform: main/src/platform.cpp and lib/device/interconnect.cpp; Emulator:
--   main/src/emulator.cpp.
--
-- The loop of `Emulator::run` takes fuel, one unit for each cycle, since the program need not end;
-- a run that uses all its fuel is its own result, and so it is in `run_until_trap`. The loop of
-- `expression::execute` takes rounds, since bytecode can jump backwards; a program whose jumps
-- lead to later operations moves on by at least a byte in each. All other recursion is structural.
-- What the code draws at random (the pages of a random fill, the ready bit of the UART), what it
-- reads from a stream, what uninitialised members and variables hold, and at which cycle an
-- interrupt comes are arguments. An operation of an expression that C++ leaves undefined, and an
-- exception, are results of their own. Elsewhere what C++ leaves undefined has a value that is
-- named at the definition: the product in `mulh` wraps around, and a page that is not there reads
-- as zeros. The decoder's queue is shared by two threads and changed only under a lock: their
-- calls are a sequence in any order, and a call that is interrupted is two.
--
-- Not modelled: the connection to GDB (lib/gdb-stub/network.cpp), the thread that `async_run`
-- starts and waits for, the parsing of the command line (main/src/option.cpp), the printing of
-- registers and CSRs, the CSR metadata, and the console output. The XML texts and the memory map
-- that the debugger sends are arguments.
pub mod Common
pub mod Bitset
pub mod Core
pub mod Device
pub mod Platform
pub mod Emulator
pub mod GdbStub
pub mod EmulatorDebug
