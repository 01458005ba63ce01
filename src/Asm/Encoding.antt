-- ===== src/Asm/Encoding.antt =====
-- Each method of asm_allocator writes the bytes of one instruction, and the processor reads back
-- the instruction that was meant.
use memwrapper.Base.{
  ℕ, ◌+◌, ◌*◌, ◌≡◌, ◌≢◌, ◌<◌, refl, some, List, [], ◌∷◌, ◌++◌, arith, byte, sub32, word_mod, ◌==◌,
  ==_iff, false, ◌⊎◌, ap, Bool-cases, inl, inr, if◌then◌else◌,
}
use memwrapper.Machine.{>>=_assoc}
use memwrapper.Windows.{Windows}
use memwrapper.Detail.{get_relative_address, jump_oplen, byteof}
use memwrapper.Allocator.{BasicAllocator, now, db_bytes, dbvalue}
use memwrapper.Asm.{
  Registers, eax, ecx, edx, ebx, esp, ebp, esi, edi, code, is_esp, is_eax, jmp, push, pop, mov_load,
  mov_store,
}
use memwrapper.Asm.Decoder
use memwrapper.Asm.Decoder.{decode, load, load_absolute, store_absolute, jump, sign_extend}

abbrev pub jmp_bytes : (rel32 : ℕ) → List ℕ
jmp_bytes rel32 = 0xe9 ∷ byteof 4 rel32

abbrev pub push_bytes : Registers → List ℕ
push_bytes r = byte (0x50 + code r) ∷ []

abbrev pub pop_bytes : Registers → List ℕ
pop_bytes r = byte (0x58 + code r) ∷ []

abbrev pub mov_load_bytes : (target source : Registers) (offset : ℕ) → List ℕ
mov_load_bytes target source offset =
    0x8b
      ∷ byte (
          if offset == 0
          then 0x08 * code target + code source
          else 0x08 * code target + code source + 0x40)
      ∷ (if is_esp source then 0x24 ∷ [] else [])
    ++ (if offset == 0 then [] else offset ∷ [])

abbrev pub mov_store_bytes : (address : ℕ) (source : Registers) → List ℕ
mov_store_bytes address source =
    (if is_eax source then 0xa3 ∷ [] else 0x89 ∷ byte (sub32 (0x0d + code source * 0x08) 0x08) ∷ [])
    ++ byteof 4 address

module _ (win : Windows) where
  open win use {Kernel}

  pub jmp-db_bytes :
      (to : ℕ) (a : BasicAllocator)
      → jmp win to a ≡ db_bytes win (jmp_bytes (get_relative_address to (now a) jump_oplen)) a
  unfolding jmp db_bytes dbvalue
  jmp-db_bytes to a = refl

  pub push-db_bytes :
      (r : Registers) (a : BasicAllocator) → push win r a ≡ db_bytes win (push_bytes r) a
  unfolding push db_bytes
  push-db_bytes r a = refl

  pub pop-db_bytes :
      (r : Registers) (a : BasicAllocator) → pop win r a ≡ db_bytes win (pop_bytes r) a
  unfolding pop db_bytes
  pop-db_bytes r a = refl

  pub mov_load-db_bytes :
      (target source : Registers) (offset : ℕ) (a : BasicAllocator)
      → mov_load win target source offset a ≡ db_bytes win (mov_load_bytes target source offset) a
  unfolding mov_load db_bytes
  mov_load-db_bytes target source offset a = elim (Bool-cases (offset == 0)) [
    | inl e ↦ elim (Bool-cases (is_esp source)) [ inl d ↦ rw (e, d) | inr d ↦ rw (e, d) ]
    | inr e ↦ elim (Bool-cases (is_esp source)) [ inl d ↦ rw (e, d) | inr d ↦ rw (e, d) ]
  ]

  pub mov_store-db_bytes :
      (address : ℕ) (source : Registers) (a : BasicAllocator)
      → mov_store win address source a ≡ db_bytes win (mov_store_bytes address source) a
  unfolding mov_store db_bytes dbvalue
  mov_store-db_bytes address source a = elim (Bool-cases (is_eax source)) [
    | inl e ↦ rw e
    | inr e ↦ rw (e, >>=_assoc)
  ]

-- `jmp` writes a jump by its displacement.
pub decode-jmp_bytes :
    (rel32 : ℕ) (rest : List ℕ)
    → rel32 < word_mod
    → decode (jmp_bytes rel32 ++ rest) ≡ some (jump rel32, rest)
unfolding decode byteof
decode-jmp_bytes rel32 rest h = ap (λ n. some (jump n, rest)) (omega arith)

-- `push` and `pop` write a push and a pop of their register.
pub decode-push_bytes :
    (r : Registers) (rest : List ℕ)
    → (decode (push_bytes r ++ rest) ≡ some (Decoder.push r, rest))
      × (decode (pop_bytes r ++ rest) ≡ some (Decoder.pop r, rest))
unfolding decode
decode-push_bytes eax rest = (refl, refl)
decode-push_bytes ecx rest = (refl, refl)
decode-push_bytes edx rest = (refl, refl)
decode-push_bytes ebx rest = (refl, refl)
decode-push_bytes esp rest = (refl, refl)
decode-push_bytes ebp rest = (refl, refl)
decode-push_bytes esi rest = (refl, refl)
decode-push_bytes edi rest = (refl, refl)

-- `mov` to memory at an address writes a store of its register there, for every register.
pub decode-mov_store_bytes :
    (address : ℕ) (source : Registers) (rest : List ℕ)
    → address < word_mod
    → decode (mov_store_bytes address source ++ rest) ≡ some (store_absolute address source, rest)
unfolding decode byteof
decode-mov_store_bytes address eax rest h =
    ap (λ n. some (store_absolute n eax, rest)) (omega arith)
decode-mov_store_bytes address source rest h =
    ap (λ n. some (store_absolute n source, rest)) (omega arith)

load_without_offset :
    (target source : Registers) (rest : List ℕ)
    → source ≢ ebp
    → decode (mov_load_bytes target source 0 ++ rest) ≡ some (load target source 0, rest)
unfolding decode
load_without_offset eax eax rest h = refl
load_without_offset _ ebp rest h = absurd (h refl)
load_without_offset _ _ rest h = refl

load_with_offset :
    (target source : Registers) (offset : ℕ) (rest : List ℕ)
    → (offset == 0) ≡ false
    → decode (mov_load_bytes target source offset ++ rest)
      ≡ some (load target source (sign_extend offset), rest)
unfolding decode
load_with_offset eax eax offset rest e = rw e
load_with_offset _ ebp offset rest e = rw e
load_with_offset _ _ offset rest e = rw e

-- `mov` from memory at a register writes a load from there with the offset sign-extended, except
-- for the base ebp without an offset.
pub decode-mov_load_bytes :
    (target source : Registers) (offset : ℕ) (rest : List ℕ)
    → (source ≢ ebp) ⊎ (offset ≢ 0)
    → decode (mov_load_bytes target source offset ++ rest)
      ≡ some (load target source (sign_extend offset), rest)
decode-mov_load_bytes target source offset rest other = elim (Bool-cases (offset == 0)) [
  | inl e ↦ elim other [
    | inl h ↦ rw ((==_iff offset 0).0 e) (load_without_offset target source rest h)
    | inr h ↦ absurd (h ((==_iff offset 0).0 e))
  ]
  | inr e ↦ load_with_offset target source offset rest e
]

-- With the base ebp and no offset, `mov` writes a load from an address instead, and the processor
-- takes the four bytes that follow for that address.
pub decode-mov_load_bytes_ebp :
    (target : Registers) (address : ℕ) (rest : List ℕ)
    → address < word_mod
    → decode (mov_load_bytes target ebp 0 ++ byteof 4 address ++ rest)
      ≡ some (load_absolute target address, rest)
unfolding decode byteof
decode-mov_load_bytes_ebp eax address rest h =
    ap (λ n. some (load_absolute eax n, rest)) (omega arith)
decode-mov_load_bytes_ebp target address rest h =
    ap (λ n. some (load_absolute target n, rest)) (omega arith)
