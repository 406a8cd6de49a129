-- ===== src/Io.antt =====
-- src/lib/io.c: the model-specific registers, which the processor reads and writes in two halves.
use lord.Prelude.{
  ℕ, ◌+◌, ◌*◌, ◌/◌, ◌%◌, ◌^◌, ◌<◌, ◌≡◌, refl, ◌∙◌, inl, inr, Bool-cases, arith, bit_and, bit_or,
  ◌==◌, if◌then◌else◌,
}
use lord.Bits.{shl, shr, and_mask, or_low}

-- The registers by their numbers of 32 bits.
abbrev pub Msrs : Type 0
Msrs = ℕ → ℕ

-- The instructions: `edx` and `eax` hold the halves.
abbrev pub write_instruction : (ecx eax edx : ℕ) → Msrs → Msrs
write_instruction ecx eax edx msrs r = if r == ecx then edx * 2 ^ 32 + eax else msrs r

pub rdmsr : (msr : ℕ) → Msrs → ℕ
rdmsr msr msrs =
    let low = msrs (msr % 2 ^ 32) % 2 ^ 32 in
    let high = msrs (msr % 2 ^ 32) / 2 ^ 32 % 2 ^ 32 in bit_or (shl high 32) low

pub wrmsr : (msr value : ℕ) → Msrs → Msrs
wrmsr msr value msrs =
    let low = bit_and value 0xffff_ffff in
    let high = shr value 32 % 2 ^ 32 in write_instruction (msr % 2 ^ 32) low high msrs

join_halves : (w : ℕ) → w < 2 ^ 64 → bit_or (shl (w / 2 ^ 32 % 2 ^ 32) 32) (w % 2 ^ 32) ≡ w
join_halves w h = or_low 32 (w / 2 ^ 32 % 2 ^ 32) (w % 2 ^ 32) (omega arith) ∙ omega arith

split_halves : (v : ℕ) → v < 2 ^ 64 → shr v 32 % 2 ^ 32 * 2 ^ 32 + bit_and v 0xffff_ffff ≡ v
split_halves v h = omega (arith, and_mask 32 v)

-- What is written is read back, and other registers keep their values.
pub rdmsr-wrmsr :
    (msr other value : ℕ) (msrs : Msrs)
    → value < 2 ^ 64
    → rdmsr other (wrmsr msr value msrs)
      ≡ (if other % 2 ^ 32 == msr % 2 ^ 32 then value else rdmsr other msrs)
unfolding rdmsr wrmsr
rdmsr-wrmsr msr other value msrs h = elim (Bool-cases (other % 2 ^ 32 == msr % 2 ^ 32)) [
  | inl same ↦ rw (same, split_halves value h) (join_halves value h)
  | inr far ↦ rw far refl
]
