-- ===== src/Hook/Object/Constructed.antt =====
-- A hook that was constructed can be installed.
use memwrapper.Base.{
  ℕ, ◌+◌, ◌≤◌, ◌<◌, ◌≡◌, refl, sym, ap, ◌∙◌, true, false, some, List, length, arith, ◌==◌, Bool,
  inl, inr,
}
use mathlib.Core.Path.{subst}
use memwrapper.Machine.{Bytes, World}
use memwrapper.Machine.Returns
use memwrapper.Machine.Returns.{Returns, returns}
use memwrapper.Windows.{Windows}
use memwrapper.Hook.Disassembler.{Disassembler, DisassemblerLaws}
use memwrapper.Hook.Measure.{Listing, nil, snoc, Constructed, Stopped, construct-cases}
use memwrapper.Hook.Relocation.{oplen, relocate}
use memwrapper.Hook.Relocation.Rewritten.{Rewritten, closed, next, rewritten_at, length-piece_bytes}
use memwrapper.Hook.Object.{Memhook, construct, call_opcode, original_offset, jump_size}
use memwrapper.Hook.Object.Installed.{IsNew}
use memwrapper.Hook.Object.Written.{Relocates}

-- Each of the instructions in the `size` bytes from `p` on is written with as many bytes as it has.
abbrev pub KeepLengths : (d : Disassembler) (f : Bytes) (p size : ℕ) → Type 0
KeepLengths d f p size =
    (n cursor : ℕ)
    → n < size
    → Listing d f p n
    → oplen (relocate (p + n) cursor (d f (p + n))) (d f (p + n)).len ≡ (d f (p + n)).len

module _ (d : Disassembler) (dis : DisassemblerLaws d) (f : Bytes) (p size cursor : ℕ)
    (keep : KeepLengths d f p size) where
  Rewritten-eq :
      {q q' step step' c c' k k' : ℕ} {bs : List ℕ}
      → q' ≡ q
      → step' ≡ step
      → c' ≡ c
      → k' ≡ k
      → Rewritten d f size q step c k bs
      → Rewritten d f size q' step' c' k' bs
  Rewritten-eq eq es ec ek r = rw (eq, es, ec, ek) r

  -- What follows a listing can be put behind the listing's own instructions.
  Listing-Rewritten :
      {m k : ℕ} {rest : List ℕ}
      → Listing d f p m
      → m ≤ size
      → Rewritten d f size (p + m) m (cursor + m) k rest
      → (bs : List ℕ) × Rewritten d f size p 0 cursor (m + k) bs
  Listing-Rewritten {k} {rest} nil le r =
      (rest, Rewritten-eq (omega arith) refl (omega arith) (omega arith) r)
  Listing-Rewritten {m} {k} {rest} (snoc {n} l ok e) le r =
      let lt : n < size = omega (arith, dis.len_pos f (p + n)) in
      let same : length (rewritten_at d f (p + n) (cursor + n)) ≡ (d f (p + n)).len =
        length-piece_bytes f (p + n) (d f (p + n)).len _ ∙ keep n (cursor + n) lt l in
      let (bs, all) = Listing-Rewritten {m = n} {k = (d f (p + n)).len + k} l (omega arith) (
        next lt ok (Rewritten-eq (omega arith) (omega (arith, same)) (omega (arith, same)) refl r)
          refl) in
      (bs, Rewritten-eq refl refl refl (omega arith) all)

-- A listing that is whole stopped at a jump's size.
covers :
    (d : Disassembler) (f : Bytes) (p size : ℕ) (broken : Bool)
    → broken ≡ false
    → Stopped d f p size broken
    → jump_size ≤ size
covers d f p size broken e (inl (_, le)) = le
covers d f p size broken e (inr (bad, _, _)) = cc (sym bad ∙ e)

module _ (win : Windows) (d : Disassembler) (dis : DisassemblerLaws d) where
  open win use {Kernel}

  -- A hook that its constructor has made of an executable function and a whole listing is new,
  -- lies at the function and covers a jump in 19 bytes at most. If the first instruction is no
  -- call, and each covered one is written with as many bytes as it has, then a trampoline at any
  -- address holds these instructions, rewritten from the covered bytes alone.
  pub construct-IsNew :
      (hookee hooker return_address code : ℕ) (w v : World Kernel) (h : Memhook)
      → construct win d hookee hooker return_address w ≡ some (h, v)
      → h.flags.executable ≡ true
      → h.flags.listing_broken ≡ false
      → ((d w.bytes hookee).opcode == call_opcode) ≡ false
      → KeepLengths d w.bytes hookee h.size
      → IsNew h
        × (h.hookee ≡ hookee)
        × (jump_size ≤ h.size)
        × (h.size ≤ 19)
        × (bs : List ℕ) × Relocates d w.bytes code h bs
  construct-IsNew hookee hooker return_address code w v h made executable whole no_call keep =
      let c : Constructed d w.bytes hookee h =
        elim (construct-cases win d hookee hooker return_address w dis) [
          | inl fault ↦ absurd (cc (sym fault ∙ made))
          | inr constructed ↦ (Returns.result constructed made).0
        ] in
      let at : hookee ≡ h.hookee = sym c.at_hookee in
      let enough : jump_size ≤ h.size =
        covers d w.bytes hookee h.size h.flags.listing_broken whole c.measured.stopped in
      let (bs, r) =
        Listing-Rewritten d dis w.bytes hookee h.size (code + original_offset) keep {k = 0}
          c.measured.listing (omega arith) (closed (omega arith) refl) in
      (
        record {
          not_installed = c.not_installed;
          not_broken = whole;
          executable = executable;
          no_original = c.no_original;
          plain = c.no_call;
        },
        c.at_hookee,
        enough,
        c.measured.small,
        bs,
        record {
          no_call = ap (λ q. (d w.bytes q).opcode == call_opcode) c.at_hookee ∙ no_call;
          span = h.size + 0;
          covered = omega arith;
          rewritten =
              subst (λ q. Rewritten d w.bytes h.size q 0 (code + original_offset) (h.size + 0) bs)
                (sym c.at_hookee) r;
        },
      )
