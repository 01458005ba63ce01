-- ===== src/Detail.antt =====
-- memwrapper_detail.hpp: relative addresses, alignment, the bytes of a value, and what the
-- templates know of a function type.
pub mod Addresses
pub mod Bytes
use memwrapper.Base.{
  ℕ, zero, suc, ◌+◌, ◌-◌, ◌/◌, ◌%◌, List, [], ◌∷◌, add32, sub32, word_mod, byte, ◌==◌,
  if◌then◌else◌, length,
}
use memwrapper.Machine.{M}

-- `byteof<T>::bytes` for an unsigned T of `n` bytes, in the machine's order: lowest first.
unfoldable pub byteof : (n value : ℕ) → List ℕ
byteof zero value = []
byteof (suc n) value = byte value ∷ byteof n (value / 256)

-- The default `oplen`.
abbrev pub jump_oplen : ℕ
jump_oplen = 5

unfoldable pub get_relative_address : (to from oplen : ℕ) → ℕ
get_relative_address to from oplen = sub32 (sub32 to from) oplen

unfoldable pub restore_absolute_address : (imm from oplen : ℕ) → ℕ
restore_absolute_address imm from oplen = add32 (add32 imm from) oplen

unfoldable pub align_value : (value alignment : ℕ) → ℕ
align_value value alignment =
    let remainder = value % alignment in
    if remainder == 0 then value else add32 (sub32 value remainder) alignment

pub data CallingConvention : Type 0 where
  cdecl stdcall thiscall fastcall : CallingConvention

-- A function type: a free function of a convention, or a member function, with what its
-- parameters and its result are.
pub data FunctionType (T : Type 0) : Type 0 where
  free : CallingConvention → T → List T → FunctionType T
  member : T → List T → FunctionType T

module _ {T : Type 0} where
  -- function_traits<Function>::return_type
  unfoldable pub return_type : FunctionType T → T
  return_type (free _ r _) = r
  return_type (member r _) = r

  -- function_traits<Function>::args_count, a size_t: the arguments less those in registers.
  unfoldable pub args_count : FunctionType T → ℕ
  args_count (free cdecl _ args) = length args
  args_count (free stdcall _ args) = length args
  args_count (free thiscall _ args) = sub32 (length args) 1
  args_count (free fastcall _ args) = sub32 (length args) 2
  args_count (member _ args) = length args

  -- function_traits<Function>::call_convention
  unfoldable pub call_convention : FunctionType T → CallingConvention
  call_convention (free c _ _) = c
  call_convention (member _ _) = thiscall

-- What the processor does on a call of `fn` in a convention is a parameter.
module _ {K V : Type 0} (invoke : CallingConvention → ℕ → List V → M K V) where
  -- The cast to a function pointer of the convention, and the call.
  unfoldable pub function_caller : CallingConvention → ℕ → List V → M K V
  function_caller cdecl fn args = invoke cdecl fn args
  function_caller stdcall fn args = invoke stdcall fn args
  function_caller thiscall fn args = invoke thiscall fn args
  function_caller fastcall fn args = invoke fastcall fn args

  unfoldable pub call_function : CallingConvention → ℕ → List V → M K V
  call_function convention fn args = function_caller convention fn args

  unfoldable pub call_cdecl : ℕ → List V → M K V
  call_cdecl fn args = call_function cdecl fn args

  unfoldable pub call_winapi : ℕ → List V → M K V
  call_winapi fn args = call_function stdcall fn args

  unfoldable pub call_method : ℕ → List V → M K V
  call_method fn args = call_function thiscall fn args

  unfoldable pub call_fast : ℕ → List V → M K V
  call_fast fn args = call_function fastcall fn args

-- The packed structures of the relative instructions; call_relative is a jmp_relative.
pub record JmpRelative : Type 0 where
  pub opcode : ℕ
  pub operand : ℕ

pub record JccRelative : Type 0 where
  pub opcode : ℕ
  pub opcode2 : ℕ
  pub operand : ℕ

-- Their bytes in memory.
abbrev pub jmp_bytes_of : JmpRelative → List ℕ
jmp_bytes_of j = j.opcode ∷ byteof 4 j.operand

abbrev pub jcc_bytes_of : JccRelative → List ℕ
jcc_bytes_of j = j.opcode ∷ j.opcode2 ∷ byteof 4 j.operand
