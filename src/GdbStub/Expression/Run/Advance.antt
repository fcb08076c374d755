-- ===== src/GdbStub/Expression/Run/Advance.antt =====
-- lib/gdb-stub/expression.cpp: a round of `execute` leads forward, or takes a jump.
use simple_riscv_emulator.Common.{
  ℕ, suc, ◌+◌, ◌<◌, true, ◌==◌, Option, some, none, List, get_elem?, ◌≡◌, ◌⊎◌, inl, inr, refl, sym,
  ap, ◌∙◌, arith,
}
use simple_riscv_emulator.GdbStub.Expression.{Machine, Progress, get_stack_at_index}
use simple_riscv_emulator.GdbStub.Expression.Bytecode.{
  Bytecode, to_u8, from_u8, from_u8-IsSound, add, sub, mul, div_signed, div_unsigned, rem_signed,
  rem_unsigned, lsh, rsh_signed, rsh_unsigned, log_not, bit_and_op, bit_or_op, bit_xor_op, bit_not,
  equal, less_signed, less_unsigned, ext, zero_ext, ref8, ref16, ref32, dup, swap, pop_op, pick,
  rot, if_goto, goto, const8, const16, const32, reg, end,
}
use simple_riscv_emulator.GdbStub.Expression.Step.{
  next, unary, binary, divide, operand16, load, cast16, control, stack_operation, memory_operation,
  arithmetic, switch, step,
}
use simple_riscv_emulator.GdbStub.Expression.Run.Jumps.{
  operation_size, size_of, is_start_from, is_start, is_forward, is_forward_from_sound,
  operation_size_pos, is_start_from_next,
}
use simple_riscv_emulator.GdbStub.Expression.Run.Leads.{
  Leads, pop-Leads, or_fail-Leads, from_access-Leads, if_Leads, next_if_defined-Leads, unary-Leads,
  binary-Leads, divide-Leads, finish-Leads, get_op_at_index-Leads,
}

module _ {ℓ} {S : Type ℓ} (access_memory access_register : S → ℕ → S × Option ℕ)
    (code : List ℕ) where
  -- The next round, if there is one, starts at a place for which `P` holds.
  abbrev pub At : (ℕ → Type 0) → Machine S → Type 0
  At P m = P m.pc

  abbrev pub IsLater : ℕ → ℕ → Type 0
  IsLater pc later = (pc < later) × (is_start code later ≡ true)

  operand16-Leads :
      (P : Machine S → Type 0) (m : Machine S) (k : ℕ → Progress S)
      → ((b1 b0 : ℕ)
          → get_elem? code (m.pc + 1) ≡ some b1
          → get_elem? code (m.pc + 2) ≡ some b0
          → Leads P (k (cast16 b0 b1)))
      → Leads P (operand16 access_memory access_register code m k)
  unfolding operand16
  operand16-Leads P m k h =
      get_op_at_index-Leads P m.env code _ _
        λ b1 e1. get_op_at_index-Leads P m.env code _ _ λ b0 e0. h b1 b0 e1 e0

  load-Leads :
      (P : Machine S → Type 0) (env : S) (addr : ℕ) (k : S → ℕ → Progress S)
      → ((env' : S) (a : ℕ) → access_memory env addr ≡ (env', some a) → Leads P (k env' a))
      → Leads P (load access_memory access_register code env addr k)
  unfolding load
  load-Leads P env addr k h = from_access-Leads P _ (access_memory env addr) k h

  -- The operation at `pc`, if it is a jump, leads to such a place.
  abbrev IsJumpTo : (ℕ → Type 0) → ℕ → Bytecode → Type 0
  IsJumpTo P pc op =
      (b1 b0 : ℕ)
      → (to_u8 op ≡ 0x20) ⊎ (to_u8 op ≡ 0x21)
      → get_elem? code (pc + 1) ≡ some b1
      → get_elem? code (pc + 2) ≡ some b0
      → P (cast16 b0 b1)

  control-At :
      (P : ℕ → Type 0) (m : Machine S) (op : Bytecode)
      → P (m.pc + operation_size op)
      → IsJumpTo P m.pc op
      → Leads (At P) (control access_memory access_register code m op)
  unfolding control operation_size next to_u8
  control-At P m if_goto g j = pop-Leads (At P) m.env m.stack _ λ a s _.
      if_Leads (At P) (a == 0) (next m 3 s) _ (λ _. g)
        λ _. operand16-Leads (At P) m _ λ b1 b0 e1 e0. j b1 b0 (inl refl) e1 e0
  control-At P m goto g j = operand16-Leads (At P) m _ λ b1 b0 e1 e0. j b1 b0 (inr refl) e1 e0
  control-At P m const8 g j = get_op_at_index-Leads (At P) m.env code _ _ λ _ _. g
  control-At P m const16 g j = operand16-Leads (At P) m _ λ _ _ _ _. g
  control-At P m const32 g j = get_op_at_index-Leads (At P) m.env code _ _ λ _ _.
      get_op_at_index-Leads (At P) m.env code _ _ λ _ _.
        get_op_at_index-Leads (At P) m.env code _ _
          λ _ _. get_op_at_index-Leads (At P) m.env code _ _ λ _ _. g
  control-At P m reg g j =
      operand16-Leads (At P) m _ λ _ _ _ _. from_access-Leads (At P) _ _ _ λ _ _ _. g
  control-At P m end g j =
      pop-Leads (At P) m.env m.stack _ λ top s _. finish-Leads (At P) m.env top s
  control-At P m _ g j = tt

  stack_operation-At :
      (P : ℕ → Type 0) (m : Machine S) (op : Bytecode)
      → P (m.pc + operation_size op)
      → IsJumpTo P m.pc op
      → Leads (At P) (stack_operation access_memory access_register code m op)
  unfolding stack_operation operation_size next get_stack_at_index
  stack_operation-At P m dup g j = pop-Leads (At P) m.env m.stack _ λ _ _ _. g
  stack_operation-At P m swap g j =
      pop-Leads (At P) m.env m.stack _ λ _ s _. pop-Leads (At P) m.env s _ λ _ _ _. g
  stack_operation-At P m pop_op g j = pop-Leads (At P) m.env m.stack _ λ _ _ _. g
  stack_operation-At P m pick g j =
      get_op_at_index-Leads (At P) m.env code _ _
        λ n _. or_fail-Leads (At P) m.env _ (get_elem? m.stack n) _ λ _ _. g
  stack_operation-At P m rot g j =
      pop-Leads (At P) m.env m.stack _
        λ _ s _. pop-Leads (At P) m.env s _ λ _ s' _. pop-Leads (At P) m.env s' _ λ _ _ _. g
  stack_operation-At P m op g j = control-At P m op g j

  memory_operation-At :
      (P : ℕ → Type 0) (m : Machine S) (op : Bytecode)
      → P (m.pc + operation_size op)
      → IsJumpTo P m.pc op
      → Leads (At P) (memory_operation access_memory access_register code m op)
  unfolding memory_operation operation_size next
  memory_operation-At P m ext g j =
      get_op_at_index-Leads (At P) m.env code _ _ λ n _.
        pop-Leads (At P) m.env m.stack _ λ _ s _. next_if_defined-Leads (At P) m 2 s _ λ _ _. g
  memory_operation-At P m zero_ext g j =
      get_op_at_index-Leads (At P) m.env code _ _ λ n _.
        pop-Leads (At P) m.env m.stack _ λ _ s _. next_if_defined-Leads (At P) m 2 s _ λ _ _. g
  memory_operation-At P m ref8 g j =
      pop-Leads (At P) m.env m.stack _ λ addr _ _. load-Leads (At P) m.env addr _ λ _ _ _. g
  memory_operation-At P m ref16 g j =
      pop-Leads (At P) m.env m.stack _
        λ addr _ _. load-Leads (At P) m.env addr _ λ env _ _. load-Leads (At P) env _ _ λ _ _ _. g
  memory_operation-At P m ref32 g j = pop-Leads (At P) m.env m.stack _ λ addr _ _.
      load-Leads (At P) m.env addr _ λ env _ _.
        load-Leads (At P) env _ _
          λ env' _ _. load-Leads (At P) env' _ _ λ env2 _ _. load-Leads (At P) env2 _ _ λ _ _ _. g
  memory_operation-At P m op g j = stack_operation-At P m op g j

  binary-At :
      (P : ℕ → Type 0) (m : Machine S) (f : ℕ → ℕ → ℕ) → P (m.pc + 1) → Leads (At P) (binary m f)
  binary-At P m f g = binary-Leads (At P) m f λ _ _ _ _. g

  divide-At :
      (P : ℕ → Type 0) (m : Machine S) (f : ℕ → ℕ → Option ℕ)
      → P (m.pc + 1)
      → Leads (At P) (divide m f)
  divide-At P m f g = divide-Leads (At P) m f λ _ _ _ _ _ _. g

  unary-At : (P : ℕ → Type 0) (m : Machine S) (f : ℕ → ℕ) → P (m.pc + 1) → Leads (At P) (unary m f)
  unary-At P m f g = unary-Leads (At P) m f λ _ _ _. g

  arithmetic-At :
      (P : ℕ → Type 0) (m : Machine S) (op : Bytecode)
      → P (m.pc + operation_size op)
      → IsJumpTo P m.pc op
      → Leads (At P) (arithmetic access_memory access_register code m op)
  unfolding arithmetic operation_size
  arithmetic-At P m add g j = binary-At P m _ g
  arithmetic-At P m sub g j = binary-At P m _ g
  arithmetic-At P m mul g j = binary-At P m _ g
  arithmetic-At P m div_signed g j = divide-At P m _ g
  arithmetic-At P m div_unsigned g j = divide-At P m _ g
  arithmetic-At P m rem_signed g j = divide-At P m _ g
  arithmetic-At P m rem_unsigned g j = divide-At P m _ g
  arithmetic-At P m lsh g j = binary-At P m _ g
  arithmetic-At P m rsh_signed g j = binary-At P m _ g
  arithmetic-At P m rsh_unsigned g j = binary-At P m _ g
  arithmetic-At P m log_not g j = unary-At P m _ g
  arithmetic-At P m bit_and_op g j = binary-At P m _ g
  arithmetic-At P m bit_or_op g j = binary-At P m _ g
  arithmetic-At P m bit_xor_op g j = binary-At P m _ g
  arithmetic-At P m bit_not g j = unary-At P m _ g
  arithmetic-At P m equal g j = binary-At P m _ g
  arithmetic-At P m less_signed g j = binary-At P m _ g
  arithmetic-At P m less_unsigned g j = binary-At P m _ g
  arithmetic-At P m op g j = memory_operation-At P m op g j

  is_forward-IsJumpTo :
      (pc op : ℕ) (b : Bytecode)
      → is_forward code ≡ true
      → is_start code pc ≡ true
      → get_elem? code pc ≡ some op
      → to_u8 b ≡ op
      → IsJumpTo (IsLater pc) pc b
  unfolding is_forward is_start
  is_forward-IsJumpTo pc op b f s e same b1 b0 jump e1 e0 =
      let one : pc + 1 ≡ suc pc = omega arith in
      let two : pc + 2 ≡ suc (suc pc) = omega arith in
      let (after, start) =
        is_forward_from_sound code 0 0 code pc op b1 b0 f s e (ap (get_elem? code) (sym one) ∙ e1)
          (ap (get_elem? code) (sym two) ∙ e0) (ground arith) in
      (omega (arith, after), start)

  next-IsLater :
      (pc op : ℕ) (b : Bytecode)
      → is_start code pc ≡ true
      → get_elem? code pc ≡ some op
      → from_u8 op ≡ some b
      → IsLater pc (pc + operation_size b)
  unfolding is_start
  next-IsLater pc op b s e read =
      let same : size_of op ≡ operation_size b = rw (size_of, read) refl in
      (
        omega (arith, operation_size_pos b),
        ap (λ n. is_start_from 0 code (pc + n)) (sym same) ∙ is_start_from_next 0 code pc op s e,
      )

  switch-IsLater :
      (m : Machine S) (op : ℕ) (b : Option Bytecode)
      → is_forward code ≡ true
      → is_start code m.pc ≡ true
      → get_elem? code m.pc ≡ some op
      → from_u8 op ≡ b
      → Leads (At (IsLater m.pc)) (switch access_memory access_register code m b)
  unfolding switch
  switch-IsLater m op none f s e read = tt
  switch-IsLater m op (some b) f s e read =
      arithmetic-At (IsLater m.pc) m b (next-IsLater m.pc op b s e read)
        (is_forward-IsJumpTo m.pc op b f s e (from_u8-IsSound op b read))

  -- In a sequence whose jumps lead forward, a round at the start of an operation leads to the start
  -- of a later one, or behind the last byte.
  pub step-IsLater :
      (m : Machine S)
      → is_forward code ≡ true
      → is_start code m.pc ≡ true
      → Leads (At (IsLater m.pc)) (step access_memory access_register code m)
  unfolding step
  step-IsLater m f s =
      get_op_at_index-Leads (At (IsLater m.pc)) m.env code m.pc _
        λ op e. switch-IsLater m op (from_u8 op) f s e refl
