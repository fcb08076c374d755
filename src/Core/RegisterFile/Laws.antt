-- ===== src/Core/RegisterFile/Laws.antt =====
-- The register file as thirty-two words of which the first is 0.
use simple_riscv_emulator.Common.{
  ℕ, zero, suc, ◌^◌, ◌<◌, ◌≡◌, refl, arith, not, ◌&&◌, ◌==◌, if◌then◌else◌, length, get_or,
  replicate, get_or-set_self, get_or-set_ne, length-set,
}
use simple_riscv_emulator.Core.RegisterFile.{RegisterFile, init, get_register, set_register}

pub record IsValid (r : RegisterFile) : Type 0 where
  pub count : length r.registers ≡ 32
  pub zero_register : get_register r 0 ≡ 0
  pub words : (i : ℕ) → get_register r i < 2 ^ 32

pub init-IsValid : IsValid init
unfolding get_register
init-IsValid = record { count = refl; zero_register = refl; words = zeros 32 }
  where
    zeros : (n i : ℕ) → get_or (replicate n 0) i 0 < 2 ^ 32
    zeros zero i = omega arith
    zeros (suc n) zero = omega arith
    zeros (suc n) (suc i) = zeros n i

-- In a valid register file, after a write of a register below 32 that register reads as the value
-- written, every other register as before, and register 0 as before even if it was written.
pub get_register-set_register :
    (r : RegisterFile) (i j v : ℕ)
    → IsValid r
    → i < 32
    → get_register (set_register r i v) j
      ≡ (if (j == i) && not (i == 0) then v else get_register r j)
unfolding get_register set_register
get_register-set_register r i j v h lt =
    ground (arith, h.count, get_or-set_self r.registers i v 0, get_or-set_ne r.registers i j v 0)

set_register-length :
    (r : RegisterFile) (i v : ℕ)
    → length r.registers ≡ 32
    → length (set_register r i v).registers ≡ 32
unfolding set_register
set_register-length r i v e = ground (arith, e, length-set r.registers i v)

-- A write of a word keeps the register file valid: register 0 stays 0.
pub set_register-IsValid :
    (r : RegisterFile) (i v : ℕ) → IsValid r → i < 32 → v < 2 ^ 32 → IsValid (set_register r i v)
set_register-IsValid r i v h lt fits = record {
  count = set_register-length r i v h.count;
  zero_register = rw (get_register-set_register r i 0 v h lt) (ground (arith, h.zero_register));
  words = λ j. rw (get_register-set_register r i j v h lt) (ground (arith, h.words j));
}
