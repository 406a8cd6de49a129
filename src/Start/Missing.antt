-- ===== src/Start/Missing.antt =====
-- `_start` without a response of the bootloader.
use lord.Prelude.{ℕ, ◌≡◌, ◌≢◌, ◌⊎◌, inl, inr, ap, arith, none, some, Option-cases, Bool-cases, ◌==◌}
use lord.Kernel.{Outcome, done, killed, hangs, fault, ◌>>=◌}
use lord.Acpi.{acpi_init}
use lord.Hal.Smp.{smp_init}
use lord.Pmm.{pmm_init}
use lord.Start.{Responses, Hardware, Globals, Booted, start_parts, start, start_devices}

-- The call does not return.
abbrev pub NeverReturns {ℓ} : {A : Type ℓ} → Outcome A → Type ℓ
NeverReturns {A} x = (a : A) → x ≢ done a

-- Nothing behind a call that does not return is reached, nor does a chain return whose rest does not.
then-NeverReturns :
    {A B : Type 0} (x : Outcome A) (f : A → Outcome B)
    → ((a : A) → NeverReturns (f a))
    → NeverReturns (x >>= f)
then-NeverReturns (done a) f h b e = h a b e
then-NeverReturns killed f h b e = cc e
then-NeverReturns hangs f h b e = cc e
then-NeverReturns fault f h b e = cc e

first-NeverReturns :
    {A B : Type 0} (x : Outcome A) (f : A → Outcome B) → x ≡ killed → NeverReturns (x >>= f)
first-NeverReturns x f e b h = cc (rw e at h)

-- One of the responses that the kernel cannot do without is a null pointer.
abbrev pub IsMissing : Responses → Type 0
IsMissing b =
    (b.hhdm ≡ none)
    ⊎ ((b.framebuffer ≡ none)
        ⊎ ((b.framebuffer ≡ some 0) ⊎ ((b.rsdp ≡ none) ⊎ ((b.memmap ≡ none) ⊎ (b.cpus ≡ none)))))

module _ (hhdm fuel : ℕ) (b : Responses) (w : Hardware) (g : Globals) where
  rsdp-NeverReturns : b.rsdp ≡ none → NeverReturns (start_parts hhdm fuel b w g)
  unfolding start_parts acpi_init
  rsdp-NeverReturns e = first-NeverReturns _ _ (ap (acpi_init hhdm w.apic w.mem) e)

  memmap-NeverReturns : b.memmap ≡ none → NeverReturns (start_parts hhdm fuel b w g)
  unfolding start_parts pmm_init
  memmap-NeverReturns e q h = ground (arith, e, h)

  cpus-NeverReturns : b.cpus ≡ none → NeverReturns (start_parts hhdm fuel b w g)
  unfolding start_parts start_devices smp_init
  cpus-NeverReturns e q h = ground (arith, e, h)

-- `_start` gets to its first call only with the offset of the direct map and a framebuffer.
start-start_parts :
    (fuel : ℕ) (b : Responses) (w : Hardware) (g : Globals) (q : Booted)
    → start fuel b w g ≡ done q
    → (hhdm : ℕ) × (fb : ℕ) × (b.hhdm ≡ some hhdm)
      × (b.framebuffer ≡ some fb)
      × (fb ≢ 0)
      × (start_parts hhdm fuel b w g ≡ done q)
unfolding start
start-start_parts fuel b w g q e = elim (Option-cases b.hhdm) [
  | inl no_hhdm ↦ absurd (ground (arith, no_hhdm, e))
  | inr (hhdm, at) ↦ elim (Option-cases b.framebuffer) [
    | inl no_response ↦ absurd (ground (arith, no_response, at, e))
    | inr (fb, screen) ↦ elim (Bool-cases (fb == 0)) [
      | inl null ↦ absurd (ground (arith, screen, null, at, e))
      | inr given ↦
          (hhdm, fb, at, screen, ground (arith, given), ground (arith, screen, given, at, e))
    ]
  ]
]

-- Where the bootloader gives no offset of the direct map, no framebuffer or a null one, no RSDP, no
-- memory map, or no list of processors, `_start` never gets as far as the scheduler, whatever the
-- hardware shows.
pub start-IsMissing :
    (fuel : ℕ) (b : Responses) (w : Hardware) (g : Globals)
    → IsMissing b
    → NeverReturns (start fuel b w g)
start-IsMissing fuel b w g missing q e =
    let (hhdm, fb, some_hhdm, some_fb, nonnull, parts) = start-start_parts fuel b w g q e in
    elim missing [
      | inl none_hhdm ↦ cc (none_hhdm, some_hhdm)
      | inr (inl none_fb) ↦ cc (none_fb, some_fb)
      | inr (inr (inl null_fb)) ↦ ground (arith, null_fb, some_fb, nonnull)
      | inr (inr (inr (inl none_rsdp))) ↦ rsdp-NeverReturns hhdm fuel b w g none_rsdp q parts
      | inr (inr (inr (inr (inl none_memmap)))) ↦
          memmap-NeverReturns hhdm fuel b w g none_memmap q parts
      | inr (inr (inr (inr (inr none_cpus)))) ↦ cpus-NeverReturns hhdm fuel b w g none_cpus q parts
    ]
