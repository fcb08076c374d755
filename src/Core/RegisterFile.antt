-- ===== src/Core/RegisterFile.antt =====
-- lib/include/core/register-file.hpp: `Register_file_module`, thirty-two registers of which the
-- first is never written.
pub mod Laws
use simple_riscv_emulator.Common.{ℕ, List, get_or, set, replicate, ◌==◌, if◌then◌else◌}

pub record RegisterFile : Type 0 where
  pub registers : List ℕ

-- `std::array<u32, 32> registers = {0}`.
abbrev pub init : RegisterFile
init = record { registers = replicate 32 0 }

-- The index is a `Bitset<5>`, so it is never out of range.
unfoldable pub get_register : RegisterFile → ℕ → ℕ
get_register r index = get_or r.registers index 0

unfoldable pub set_register : RegisterFile → ℕ → ℕ → RegisterFile
set_register r index value =
    if index == 0 then r else record r { registers = set r.registers index value }
