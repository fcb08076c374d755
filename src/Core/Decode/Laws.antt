-- ===== src/Core/Decode/Laws.antt =====
-- What the decoder's results have in common, whatever the instruction word.
use simple_riscv_emulator.Common.{
  ℕ, zero, suc, ◌/◌, ◌%◌, ◌^◌, ◌<◌, ◌≡◌, refl, arith, Bool, true, ◌==◌, ◌⊎◌, inl, inr, ok,
  unexpected, Option, some, none, get_or, Bool-cases,
}
use simple_riscv_emulator.Bitset.{slice}
use simple_riscv_emulator.Bitset.Laws.{sext-lt, concat-add}
use simple_riscv_emulator.Core.Trap.{Trap, illegal_instruction}
use simple_riscv_emulator.Core.Inst.{rtype, itype, stype, btype, utype, jtype}
use simple_riscv_emulator.Core.Inst.Immediates.{
  stype-imm, btype-imm, jtype-imm, stype_bits, btype_bits, jtype_bits,
}
use simple_riscv_emulator.Core.Memory.{Funct, LoadStoreOpcode}
use simple_riscv_emulator.Core.LoadStore.Lanes.{store_size}
use simple_riscv_emulator.Core.LoadStore.Loads.{load_size}
use simple_riscv_emulator.Core.RegisterFile.{RegisterFile}
use simple_riscv_emulator.Core.RegisterFile.Laws.{IsValid}
use simple_riscv_emulator.Core.Decode.Result.{DecodeResult, no_access}
use simple_riscv_emulator.Core.Decode.Groups.{
  decode_lui, decode_auipc, decode_jal, decode_jalr, decode_load, decode_store, decode_register_imm,
  decode_register_register, decode_branch, decode_misc_mem, store_funct, register_opcode,
  memory_opcode_list,
}
use simple_riscv_emulator.Core.Decode.System.{
  decode_system, decode_environment, decode_csr, csr_mode, csr_write_value,
}
use simple_riscv_emulator.Core.Decode.{Opcode, decode_opcode, to_opcode, decode}

-- A load has no function of a store, and a store none of a load.
abbrev pub agrees : LoadStoreOpcode → Funct → Bool
agrees LoadStoreOpcode.none f = true
agrees LoadStoreOpcode.load f = store_size f == 0
agrees LoadStoreOpcode.store f = load_size f == 0

pub record IsDecoded (d : DecodeResult) : Type 0 where
  pub dest_register : d.dest_register < 32
  pub alu_num1 : d.alu_num1 < 2 ^ 32
  pub alu_num2 : d.alu_num2 < 2 ^ 32
  pub store_value : d.memory_store_value < 2 ^ 32
  pub write_value : d.csr_access_info.write_value < 2 ^ 32
  pub memory_funct : agrees d.memory_opcode d.memory_funct ≡ true
  -- No instruction accesses both the memory and a CSR.
  pub separate : (d.memory_opcode ≡ LoadStoreOpcode.none) ⊎ (d.csr_access_info ≡ no_access)

itype-fields : (w : ℕ) → ((itype w).imm < 2 ^ 32) × ((itype w).rd < 32)
unfolding itype
itype-fields w = (sext-lt 12 (w / 2 ^ 20 % 2 ^ 12) (omega arith), omega arith)

rtype-rd : (w : ℕ) → (rtype w).rd < 32
unfolding rtype
rtype-rd w = omega arith

stype-imm-lt : (w : ℕ) → (stype w).imm < 2 ^ 32
stype-imm-lt w = rw (stype-imm w) (sext-lt 12 (stype_bits w) (omega arith))

btype-imm-lt : (w : ℕ) → (btype w).imm < 2 ^ 32
btype-imm-lt w = rw (btype-imm w) (sext-lt 13 (btype_bits w) (omega arith))

jtype-fields : (w : ℕ) → ((jtype w).imm < 2 ^ 32) × ((jtype w).rd < 32)
unfolding jtype
jtype-fields w = (rw (jtype-imm w) (sext-lt 21 (jtype_bits w) (omega arith)), omega arith)

utype-fields : (w : ℕ) → ((utype w).imm < 2 ^ 32) × ((utype w).rd < 32)
unfolding utype
utype-fields w = (
  omega (arith, concat-add 20 12 (w / 2 ^ 12 % 2 ^ 20) 0 (omega arith) (omega arith)),
  omega arith,
)

memory_opcode-agrees :
    (n : ℕ) → agrees LoadStoreOpcode.load (get_or memory_opcode_list n Funct.none) ≡ true
memory_opcode-agrees zero = refl
memory_opcode-agrees (suc zero) = refl
memory_opcode-agrees (suc (suc zero)) = refl
memory_opcode-agrees (suc (suc (suc zero))) = refl
memory_opcode-agrees (suc (suc (suc (suc zero)))) = refl
memory_opcode-agrees (suc (suc (suc (suc (suc zero))))) = refl
memory_opcode-agrees (suc (suc (suc (suc (suc (suc zero)))))) = refl
memory_opcode-agrees (suc (suc (suc (suc (suc (suc (suc zero))))))) = refl
memory_opcode-agrees (suc (suc (suc (suc (suc (suc (suc (suc n)))))))) = refl

store_funct-agrees : (n : ℕ) → agrees LoadStoreOpcode.store (store_funct n) ≡ true
unfolding store_funct
store_funct-agrees n = ground arith

module _ (registers : RegisterFile) (valid : IsValid registers) where
  decode_load-IsDecoded : (w : ℕ) → IsDecoded (decode_load registers w)
  unfolding decode_load
  decode_load-IsDecoded w =
      let (imm, rd) = itype-fields w in
      record {
        dest_register = rd;
        alu_num1 = valid.words (itype w).rs1;
        alu_num2 = imm;
        store_value = omega arith;
        write_value = omega arith;
        memory_funct = memory_opcode-agrees (itype w).funct3;
        separate = inr refl;
      }

  decode_store-IsDecoded : (w : ℕ) → IsDecoded (decode_store registers w)
  unfolding decode_store
  decode_store-IsDecoded w = record {
    dest_register = omega arith;
    alu_num1 = valid.words (stype w).rs1;
    alu_num2 = stype-imm-lt w;
    store_value = valid.words (stype w).rs2;
    write_value = omega arith;
    memory_funct = store_funct-agrees (stype w).funct3;
    separate = inr refl;
  }

  -- A result without a memory access.
  arithmetic :
      (d : DecodeResult)
      → d.memory_opcode ≡ LoadStoreOpcode.none
      → d.memory_store_value ≡ 0
      → d.dest_register < 32
      → d.alu_num1 < 2 ^ 32
      → d.alu_num2 < 2 ^ 32
      → d.csr_access_info.write_value < 2 ^ 32
      → IsDecoded d
  arithmetic d opcode store rd num1 num2 write = record {
    dest_register = rd;
    alu_num1 = num1;
    alu_num2 = num2;
    store_value = omega arith;
    write_value = write;
    memory_funct = rw opcode refl;
    separate = inl opcode;
  }

  decode_register_register-IsDecoded :
      (w : ℕ) (d : DecodeResult) → decode_register_register registers w ≡ ok d → IsDecoded d
  unfolding decode_register_register
  decode_register_register-IsDecoded w d h =
      let first = valid.words (rtype w).rs1 in
      let second = valid.words (rtype w).rs2 in
      let rd = rtype-rd w in
      let result = arithmetic d in ground (arith, h, first, second, rd, result)

  decode_system-IsDecoded :
      (w : ℕ) (d : DecodeResult) → decode_system registers w ≡ ok d → IsDecoded d
  unfolding decode_system decode_environment decode_csr csr_mode csr_write_value
  decode_system-IsDecoded w d h =
      let value = valid.words (itype w).rs1 in
      let rd = (itype-fields w).1 in
      let extended = sext-lt 5 (itype w).rs1 (omega arith) in
      let result = arithmetic d in ground (arith, h, value, extended, rd, result)

  decode_misc_mem-IsDecoded : (w : ℕ) (d : DecodeResult) → decode_misc_mem w ≡ ok d → IsDecoded d
  unfolding decode_misc_mem
  decode_misc_mem-IsDecoded w d h = let result = arithmetic d in ground (arith, h, result)

  decode_opcode-IsDecoded :
      (o : Option Opcode) (w pc : ℕ) (d : DecodeResult)
      → pc < 2 ^ 32
      → decode_opcode o registers w pc ≡ ok d
      → IsDecoded d
  unfolding decode_opcode decode_lui decode_auipc decode_jal decode_jalr decode_register_imm
      decode_branch
  decode_opcode-IsDecoded (some Opcode.lui) w pc d lt h =
      let (imm, rd) = utype-fields w in
      let result = arithmetic d in ground (arith, h, imm, rd, result)
  decode_opcode-IsDecoded (some Opcode.auipc) w pc d lt h =
      let (imm, rd) = utype-fields w in
      let result = arithmetic d in ground (arith, h, imm, rd, lt, result)
  decode_opcode-IsDecoded (some Opcode.jal) w pc d lt h =
      let (imm, rd) = jtype-fields w in
      let result = arithmetic d in ground (arith, h, imm, rd, lt, result)
  decode_opcode-IsDecoded (some Opcode.jalr) w pc d lt h =
      let (imm, rd) = itype-fields w in
      let value = valid.words (itype w).rs1 in
      let result = arithmetic d in ground (arith, h, imm, rd, value, result)
  decode_opcode-IsDecoded (some Opcode.load) w pc d lt h =
      let result = decode_load-IsDecoded w in ground (arith, h, result)
  decode_opcode-IsDecoded (some Opcode.store) w pc d lt h =
      let result = decode_store-IsDecoded w in ground (arith, h, result)
  decode_opcode-IsDecoded (some Opcode.reg_imm_arithmetic) w pc d lt h =
      let (imm, rd) = itype-fields w in
      let value = valid.words (itype w).rs1 in
      let result = arithmetic d in ground (arith, h, imm, rd, value, result)
  decode_opcode-IsDecoded (some Opcode.reg_reg_arithmetic) w pc d lt h =
      decode_register_register-IsDecoded w d h
  decode_opcode-IsDecoded (some Opcode.branch) w pc d lt h =
      let imm = btype-imm-lt w in let result = arithmetic d in ground (arith, h, imm, lt, result)
  decode_opcode-IsDecoded (some Opcode.misc_mem) w pc d lt h = decode_misc_mem-IsDecoded w d h
  decode_opcode-IsDecoded (some Opcode.system) w pc d lt h = decode_system-IsDecoded w d h
  decode_opcode-IsDecoded none w pc d lt h = absurd (ground (arith, h))

  -- If the decoder accepts a word, with a valid register file and a word as pc, then the result has
  -- a register number below 32, words as operands, no function of a store in a load nor of a load
  -- in a store, and no access of both the memory and a CSR.
  pub decode-IsDecoded :
      (w pc : ℕ) (d : DecodeResult) → pc < 2 ^ 32 → decode registers w pc ≡ ok d → IsDecoded d
  unfolding decode
  decode-IsDecoded w pc d lt h = elim (Bool-cases (slice 1 0 w == 3)) [
    | inl full ↦
        decode_opcode-IsDecoded (to_opcode (slice 6 2 w)) w pc d lt (ground (arith, h, full))
    | inr compressed ↦ absurd (ground (arith, h, compressed))
  ]

decode_opcode-trap :
    (o : Option Opcode) (r : RegisterFile) (w pc : ℕ) (t : Trap)
    → decode_opcode o r w pc ≡ unexpected t
    → t ≡ illegal_instruction
unfolding decode_opcode decode_register_register register_opcode decode_misc_mem decode_system
    decode_environment decode_csr csr_mode
decode_opcode-trap o r w pc t h = ground (arith, h)

-- Illegal instruction is the only trap of the decoder.
pub decode-trap :
    (r : RegisterFile) (w pc : ℕ) (t : Trap)
    → decode r w pc ≡ unexpected t
    → t ≡ illegal_instruction
unfolding decode
decode-trap r w pc t h =
    let deep = decode_opcode-trap (to_opcode (slice 6 2 w)) r w pc t in ground (arith, h, deep)
