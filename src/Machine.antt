-- ===== src/Machine.antt =====
-- The process that the library runs in: the bytes of its address space, and the operating system
-- behind them. `memcpy`, `memset` and `memcmp` of the C library act on it byte by byte.
pub mod Overlay
pub mod Returns
pub mod Run
use memwrapper.Base.{
  ◌≡◌, refl, fun_ext, ℕ, zero, suc, ◌+◌, Bool, Option, none, some, List, [], ◌∷◌, byte, replicate,
  if◌then◌else◌, ◌==◌, ltb,
}

-- Address space: what byte stands at an address.
abbrev pub Bytes : Type 0
Bytes = ℕ → ℕ

-- `kernel` is the state of the operating system, whose type is a parameter.
pub record World (K : Type 0) : Type 0 where
  pub bytes : Bytes
  pub kernel : K

-- A computation that reads and writes memory; `none` is an access violation.
abbrev pub M : Type 0 → Type 0 → Type 0
M K A = World K → Option (A × World K)

abbrev pub pure : {A K : Type 0} → A → M K A
pure a w = some (a, w)

-- What follows a run.
abbrev pub and_then : {A B K : Type 0} → Option (A × World K) → (A → M K B) → Option (B × World K)
and_then none f = none
and_then (some (a, w)) f = f a w

infixl 5 ◌>>=◌ ◌>>◌
abbrev pub ◌>>=◌ : {A B K : Type 0} → M K A → (A → M K B) → M K B
◌>>=◌ m f w = and_then (m w) f

abbrev pub ◌>>◌ : {B K : Type 0} → M K (Unit {0}) → M K B → M K B
m >> k = m >>= λ _. k

pub >>=_assoc :
    {A B C K : Type 0} (m : M K A) (f : A → M K B) (g : B → M K C)
    → ((m >>= f) >>= g) ≡ (m >>= λ a. f a >>= g)
>>=_assoc {A} {C} {K} m f g = fun_ext λ w. elim (m w) as split [ none ↦ refl | some (a, u) ↦ refl ]
  where
    split : Option (A × World K) → Type 0
    split r = and_then (and_then r f) g ≡ and_then r (λ a. f a >>= g)

-- An operating system call: it may change the kernel's state and no byte.
abbrev pub kernel_call : {A K : Type 0} → (K → A × K) → M K A
kernel_call f w = let (a, k) = f w.kernel in some (a, record w { kernel = k })

unfoldable pub update : Bytes → ℕ → ℕ → Bytes
update f p b a = if p == a then b else f a

-- The `n` bytes from `p` on.
unfoldable pub slice : Bytes → ℕ → ℕ → List ℕ
slice f p zero = []
slice f p (suc n) = f p ∷ slice f (p + 1) n

-- `f` with the list written from `p` on.
unfoldable pub overlay : Bytes → ℕ → List ℕ → Bytes
unfolding update
overlay f p [] = f
overlay f p (b ∷ bs) = overlay (update f p b) (p + 1) bs

-- What the processor allows in a state of the kernel.
pub record Access (K : Type 0) : Type 0 where
  pub can_read : K → ℕ → Bool
  pub can_write : K → ℕ → Bool

module _ {K : Type 0} (cpu : Access K) where
  unfoldable pub load : ℕ → M K ℕ
  load a w = if cpu.can_read w.kernel a then some (w.bytes a, w) else none

  unfoldable pub store : ℕ → ℕ → M K (Unit {0})
  unfolding update
  store a b w =
      if cpu.can_write w.kernel a then some (tt, record w { bytes = update w.bytes a b }) else none

  unfoldable pub read_bytes : ℕ → ℕ → M K (List ℕ)
  unfolding load
  read_bytes a zero = pure []
  read_bytes a (suc n) = do b ← load a; bs ← read_bytes (a + 1) n; pure (b ∷ bs)

  unfoldable pub write_bytes : ℕ → List ℕ → M K (Unit {0})
  unfolding store
  write_bytes a [] = pure tt
  write_bytes a (b ∷ bs) = store a b >> write_bytes (a + 1) bs

  -- Regions that do not overlap, as the C library asks.
  unfoldable pub memcpy : (dst src n : ℕ) → M K (Unit {0})
  unfolding read_bytes write_bytes
  memcpy dst src n = do bs ← read_bytes src n; write_bytes dst bs

  unfoldable pub memset : (at value n : ℕ) → M K (Unit {0})
  unfolding write_bytes
  memset at value n = write_bytes at (replicate n (byte value))

-- The sign of `memcmp`'s result.
pub data Sign : Type 0 where
  negative equal positive : Sign

-- The first differing byte decides, as an unsigned char.
unfoldable pub compare_bytes : List ℕ → List ℕ → Sign
compare_bytes [] _ = equal
compare_bytes (a ∷ as') [] = equal
compare_bytes (a ∷ as') (b ∷ bs) =
    let rest = compare_bytes as' bs in
    if a == b then rest else if ltb a b then negative else positive

module _ {K : Type 0} (cpu : Access K) where
  unfoldable pub memcmp : (p q n : ℕ) → M K Sign
  unfolding read_bytes compare_bytes
  memcmp p q n = do as' ← read_bytes cpu p n; bs ← read_bytes cpu q n; pure (compare_bytes as' bs)
