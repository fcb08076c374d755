-- ===== src/Platform/Tests.antt =====
-- main/src/platform.cpp: a platform with an empty ROM and RAM.
use simple_riscv_emulator.Common.{◌*◌, ◌≡◌, ◌≢◌, refl, arith, none, [], inl}
use simple_riscv_emulator.Core.Outcome.{throws}
use simple_riscv_emulator.Core.InstFetch.{fetch, is_hit}
use simple_riscv_emulator.Core.InstFetch
use simple_riscv_emulator.Core.RegisterFile.Laws.{init-IsValid}
use simple_riscv_emulator.Core.Cpu.State.{Cpu, Uninit}
use simple_riscv_emulator.Core.Cpu.State
use simple_riscv_emulator.Core.Cpu.{step}
use simple_riscv_emulator.Core.Cpu.Tests.{garbage}
use simple_riscv_emulator.Device.BlockMemory.{FillPolicy, lock}
use simple_riscv_emulator.Device.BlockMemory
use simple_riscv_emulator.Device.Uart
use simple_riscv_emulator.Device.Clock
use simple_riscv_emulator.Platform.{PlatformMemory, Randomness, write, interconnect}
use simple_riscv_emulator.Platform.Rom.{write-rom}
use simple_riscv_emulator.Platform.Steps.{platform_step-some, fetch-peripheral}

abbrev pub zero_random : Randomness
zero_random = record { page = λ i k. 0; number = λ n. 0 }

abbrev pub memory : PlatformMemory
memory = record {
  rom = lock (BlockMemory.create (128 * 1024) FillPolicy.none);
  ram = BlockMemory.create (2 * 1024 * 1024 * 1024) FillPolicy.zeros;
  uart = Uart.init [];
  clock_periph = Clock.init;
}

abbrev pub cpu : Cpu PlatformMemory
cpu = State.create 0x0010_0000 memory

write-rom_example : (write zero_random memory 0x0010_0004 7 0b1111).0.rom ≡ memory.rom
unfolding lock BlockMemory.create
write-rom_example = write-rom zero_random memory 0x0010_0004 7 0b1111 refl

platform_step-some_example : (step (interconnect zero_random) cpu garbage).1 ≢ none
unfolding State.create
platform_step-some_example =
    platform_step-some zero_random cpu garbage (ground arith) init-IsValid (omega arith)

fetch-peripheral_example :
    (fetch (interconnect zero_random) memory InstFetch.init 0x0001_0008).2 ≡ throws
unfolding lock BlockMemory.create is_hit
fetch-peripheral_example =
    fetch-peripheral zero_random memory InstFetch.init 0x0001_0008
      record { rom_size = refl; ram_size = refl } (inl refl) refl refl
