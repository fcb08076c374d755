-- ===== src/GdbStub/Accessor/Tests.antt =====
-- lib/gdb-stub/accessor.cpp: bytes of a small memory, and registers.
use simple_riscv_emulator.Common.{true, not, ◌&&◌, some, ◌==◌, if◌then◌else◌, ◌≡◌, arith}
use simple_riscv_emulator.Core.Cpu.State.{create}
use simple_riscv_emulator.Core.RegisterFile.Laws.{init-IsValid}
use simple_riscv_emulator.Core.LoadStore.Tests.{small-IsReady}
use simple_riscv_emulator.Device.BlockMemory.Interface.{block_memory, words}
use simple_riscv_emulator.Device.BlockMemory.Tests.{no_random, small}
use simple_riscv_emulator.Platform.Tests.{cpu}
use simple_riscv_emulator.GdbStub.Accessor.{read, write, read_register, write_register}
use simple_riscv_emulator.GdbStub.Accessor.Memory.{read-write}
use simple_riscv_emulator.GdbStub.Accessor.Register.{read_register-write_register}

read-write_example :
    ((write (block_memory no_random) small 4097 0x5a).1 ≡ true)
    × ((read (block_memory no_random) (write (block_memory no_random) small 4097 0x5a).0 4099).1
        ≡ (if 4099 == 4097 then some 0x5a else (read (block_memory no_random) small 4099).1))
read-write_example =
    read-write {m = block_memory no_random} (words no_random) small 4097 4099 0x5a (omega arith)
      (omega arith) (omega arith) small-IsReady small-IsReady

read_register-write_register_example :
    ((write_register cpu 32 0x2000_0000).1 ≡ true)
    × ((read_register (write_register cpu 32 0x2000_0000).0 5).1
        ≡ (if (5 == 32) && not (32 == 0) then some 0x2000_0000 else (read_register cpu 5).1))
unfolding create
read_register-write_register_example =
    read_register-write_register cpu 32 5 0x2000_0000 init-IsValid (omega arith) (omega arith)
