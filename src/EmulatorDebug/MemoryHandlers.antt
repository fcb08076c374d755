-- ===== src/EmulatorDebug/MemoryHandlers.antt =====
-- main/src/emulator-debug.cpp: `handle_mem_read` and `handle_mem_write`, on the interconnect of the
-- platform or any other memory.
use simple_riscv_emulator.Common.{
  ℕ, zero, suc, ◌+◌, ◌*◌, ◌%◌, Bool, true, false, ◌||◌, List, [], ◌∷◌, ◌==◌, u32, ◌<<<◌, ok,
  unexpected,
}
use simple_riscv_emulator.Core.Memory.{MemoryInterface, byte_of}
use simple_riscv_emulator.GdbStub.Response.{Response, raw_byte_stream, error_code, ok_response}

module _ {S : Type 0} (m : MemoryInterface S) where
  keep_byte : ℕ → S × List ℕ → S × List ℕ
  keep_byte byte (s, rest) = (s, byte ∷ rest)

  -- The loop over the addresses: the first, and each that starts a word, reads at that very address;
  -- the others take their byte from the word read before. An error ends the loop.
  unfoldable pub read_bytes : ℕ → S → ℕ → Bool → ℕ → S × List ℕ
  unfolding keep_byte
  read_bytes zero s address first word = (s, [])
  read_bytes (suc n) s address first word = elim (first || (address % 4 == 0)) [
    | true ↦
        (let (s', read_result) = m.read s address in
          elim read_result [
            | unexpected e ↦ (s', [])
            | ok bytes ↦
                keep_byte (byte_of (address % 4) bytes)
                  (read_bytes n s' (u32 (address + 1)) false bytes)
          ])
    | false ↦ keep_byte (byte_of (address % 4) word) (read_bytes n s (u32 (address + 1)) false word)
  ]

  unfoldable pub handle_mem_read : S → ℕ → ℕ → S × Response
  unfolding read_bytes
  handle_mem_read s address size =
      let (s', bytes) = read_bytes size s address true 0 in (s', raw_byte_stream bytes)

  -- The loop over the bytes, each of which is written at its own address.
  unfoldable pub write_bytes : S → ℕ → List ℕ → S × Response
  write_bytes s address [] = (s, ok_response)
  write_bytes s address (byte ∷ bytes) =
      let byte_enable = 1 <<< (address % 4) in
      let write_data = u32 (byte <<< (address % 4 * 8)) in
      let (s', done) = m.write s address write_data byte_enable in
      elim done [
        | unexpected e ↦ (s', error_code 0)
        | ok _ ↦ write_bytes s' (u32 (address + 1)) bytes
      ]

  unfoldable pub handle_mem_write : S → ℕ → List ℕ → S × Response
  unfolding write_bytes
  handle_mem_write s address bytes = write_bytes s address bytes
