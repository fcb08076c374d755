-- ===== src/Platform.antt =====
-- main/src/platform.cpp, main/include/platform.hpp and lib/device/interconnect.cpp: the memory map,
-- and the interconnect that hands an access to the device that the address belongs to.
pub mod Rom
pub mod Steps
pub mod Tests
use simple_riscv_emulator.Common.{
  ℕ, ◌+◌, ◌-◌, ◌*◌, ◌^◌, Bool, ◌&&◌, List, leb, ltb, if◌then◌else◌, u64, Expected, ok, unexpected,
}
use simple_riscv_emulator.Core.Memory.{MemoryError, out_of_range, MemoryInterface}
use simple_riscv_emulator.Device.BlockMemory.{BlockMemory, FillPolicy}
use simple_riscv_emulator.Device.BlockMemory as Block
use simple_riscv_emulator.Device.Uart.{Uart}
use simple_riscv_emulator.Device.Uart as UartDevice
use simple_riscv_emulator.Device.Clock.{Clock}
use simple_riscv_emulator.Device.Clock as ClockDevice

-- What the devices draw at random: the words of a page that is filled so, and the numbers of the
-- UART's `random()`.
pub record Randomness : Type 0 where
  pub page : ℕ → ℕ → ℕ
  pub number : ℕ → ℕ

-- `Platform::Memory`.
pub record PlatformMemory : Type 0 where
  pub rom : BlockMemory
  pub ram : BlockMemory
  pub uart : Uart
  pub clock_periph : Clock

pub data Device : Type 0 where
  ram rom uart clock : Device

abbrev pub rom_start : ℕ
rom_start = 0x0010_0000

abbrev pub ram_start : ℕ
ram_start = 0x8000_0000

abbrev pub uart_start : ℕ
uart_start = 0x0001_0000

abbrev pub clock_start : ℕ
clock_start = 0x0001_1000

-- `address >= start && address < start + size`.
abbrev pub within : ℕ → ℕ → ℕ → Bool
within start size address = leb start address && ltb address (u64 (start + size))

-- `get_memory`: the device and the address relative to it.
unfoldable pub get_memory : PlatformMemory → ℕ → Expected (Device × ℕ) MemoryError
get_memory m address =
    if within ram_start (Block.size m.ram) address
    then ok (Device.ram, address - ram_start)
    else if within rom_start (Block.size m.rom) address
    then ok (Device.rom, address - rom_start)
    else if within uart_start UartDevice.size address
    then ok (Device.uart, address - uart_start)
    else if within clock_start ClockDevice.size address
    then ok (Device.clock, address - clock_start)
    else unexpected out_of_range

module _ (random : Randomness) where
  -- `entry.get().read(entry_address)` and its kin: the call of the device, with the result stored
  -- back.
  unfoldable pub read_device : PlatformMemory → Device → ℕ → PlatformMemory × Expected ℕ MemoryError
  read_device m Device.ram a =
      let (d, r) = Block.read random.page m.ram a in (record m { ram = d }, r)
  read_device m Device.rom a =
      let (d, r) = Block.read random.page m.rom a in (record m { rom = d }, r)
  read_device m Device.uart a =
      let (d, r) = UartDevice.read random.number m.uart a in (record m { uart = d }, r)
  read_device m Device.clock a =
      let (d, r) = ClockDevice.read m.clock_periph a in (record m { clock_periph = d }, r)

  unfoldable pub read_page_device :
      PlatformMemory → Device → ℕ → PlatformMemory × Expected (ℕ → ℕ) MemoryError
  read_page_device m Device.ram a =
      let (d, r) = Block.read_page random.page m.ram a in (record m { ram = d }, r)
  read_page_device m Device.rom a =
      let (d, r) = Block.read_page random.page m.rom a in (record m { rom = d }, r)
  read_page_device m Device.uart a =
      let (d, r) = UartDevice.read_page m.uart a in (record m { uart = d }, r)
  read_page_device m Device.clock a =
      let (d, r) = ClockDevice.read_page m.clock_periph a in (record m { clock_periph = d }, r)

  unfoldable pub write_device :
      PlatformMemory → Device → ℕ → ℕ → ℕ → PlatformMemory × Expected (Unit {0}) MemoryError
  write_device m Device.ram a d mask =
      let (b, r) = Block.write random.page m.ram a d mask in (record m { ram = b }, r)
  write_device m Device.rom a d mask =
      let (b, r) = Block.write random.page m.rom a d mask in (record m { rom = b }, r)
  write_device m Device.uart a d mask =
      let (b, r) = UartDevice.write m.uart a d mask in (record m { uart = b }, r)
  write_device m Device.clock a d mask =
      let (b, r) = ClockDevice.write m.clock_periph a d mask in (record m { clock_periph = b }, r)

  -- `Interconnect::read`, `read_page` and `write`.
  unfoldable pub read : PlatformMemory → ℕ → PlatformMemory × Expected ℕ MemoryError
  read m address = elim (get_memory m address) [
    | unexpected e ↦ (m, unexpected e)
    | ok (device, offset) ↦ read_device m device offset
  ]

  unfoldable pub read_page : PlatformMemory → ℕ → PlatformMemory × Expected (ℕ → ℕ) MemoryError
  read_page m address = elim (get_memory m address) [
    | unexpected e ↦ (m, unexpected e)
    | ok (device, offset) ↦ read_page_device m device offset
  ]

  unfoldable pub write :
      PlatformMemory → ℕ → ℕ → ℕ → PlatformMemory × Expected (Unit {0}) MemoryError
  write m address d mask = elim (get_memory m address) [
    | unexpected e ↦ (m, unexpected e)
    | ok (device, offset) ↦ write_device m device offset d mask
  ]

  -- The interconnect as the CPU's memory.
  abbrev pub interconnect : MemoryInterface PlatformMemory
  interconnect = record {
    read = read;
    read_page = read_page;
    write = write;
    size = λ m. 2 ^ 64 - 1;
  }

  -- The memory that the constructor builds, and whether the ROM took the data; if not, it throws.
  unfoldable pub create : (ℕ → ℕ) → ℕ → FillPolicy → List ℕ → PlatformMemory × Bool
  create rom_init_data rom_init_size fill_policy input =
      let (block, filled) =
        Block.fill_data random.page (Block.create (128 * 1024) FillPolicy.none) rom_init_data
          rom_init_size in
      (
        record {
          rom = Block.lock block;
          ram = Block.create (2 * 1024 * 1024 * 1024) fill_policy;
          uart = UartDevice.init input;
          clock_periph = ClockDevice.init;
        },
        filled,
      )
