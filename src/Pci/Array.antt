-- ===== src/Pci/Array.antt =====
-- The array of devices.
use lord.Prelude.{
  ℕ, zero, suc, ◌+◌, ◌<◌, ◌≡◌, refl, ap, ◌∙◌, ◌≢◌, true, false, some, List, [], ◌∷◌, ◌++◌, arith,
  ◌==◌, leb, All, length, set, get_or, replicate,
}
use lord.Kernel.{done, hangs}
use lord.Pci.{
  pci_device_bus, PciStructure, PciArray, func0, unused_loop, merge_functions, pci_add_device,
  same_device, device_loop, pci_get_device, blank_structure,
}

-- An entry of another device.
abbrev pub IsOther : PciStructure → PciStructure → Type 0
IsOther s e = (func0 e.func_addr ≢ 0) × (same_device s e ≡ false)

unused_loop-append :
    (s : PciStructure) (i : ℕ) (used rest : List PciStructure)
    → All (IsOther s) used
    → i + length used < pci_device_bus
    → unused_loop i (used ++ blank_structure ∷ rest) ≡ done (i + length used)
unfolding unused_loop
unused_loop-append s i [] rest h lt = ap done (omega arith)
unused_loop-append s i (e ∷ used) rest h lt =
    let taken : (func0 e.func_addr == 0) ≡ false = ground (arith, h.0.0) in
    let room : leb pci_device_bus i ≡ false = ground arith in
    rw (unused_loop, taken, room)
      (unused_loop-append s (i + 1) used rest h.1 (omega arith) ∙ ap done (omega arith))

set-append :
    (used rest : List PciStructure) (b s : PciStructure)
    → set (used ++ b ∷ rest) (length used) s ≡ used ++ s ∷ rest
set-append [] rest b s = refl
set-append (e ∷ used) rest b s = ap (λ t. e ∷ t) (set-append used rest b s)

get_or-append :
    (used rest : List PciStructure) (b d : PciStructure)
    → get_or (used ++ b ∷ rest) (length used) d ≡ b
get_or-append [] rest b d = refl
get_or-append (e ∷ used) rest b d = get_or-append used rest b d

merge_functions-zero :
    (n : ℕ) (new : List ℕ) → length new ≡ n → merge_functions new (replicate n 0) ≡ new
unfolding merge_functions
merge_functions-zero zero [] e = refl
merge_functions-zero zero (x ∷ new) e = absurd (omega arith)
merge_functions-zero (suc n) [] e = absurd (omega arith)
merge_functions-zero (suc n) (x ∷ new) e = ground (arith, merge_functions-zero n new)

device_loop-append :
    (s t : PciStructure) (i : ℕ) (used rest : List PciStructure)
    → All (IsOther s) used
    → same_device s t ≡ true
    → device_loop i s (used ++ t ∷ rest) ≡ some (i + length used)
unfolding device_loop
device_loop-append s t i [] rest h here = rw (device_loop, here) (ap some (omega arith))
device_loop-append s t i (e ∷ used) rest h here =
    rw (device_loop, h.0.1)
      (device_loop-append s t (i + 1) used rest h.1 here ∙ ap some (omega arith))

-- Behind the entries of other devices `pci_add_device` puts a device into the first entry that holds
-- none, with all its functions; `pci_get_device` then finds it there, but returns with the lock
-- held, so every later call of both hangs.
pub pci_get_device-pci_add_device :
    (s : PciStructure) (used rest : List PciStructure)
    → All (IsOther s) used
    → length used < pci_device_bus
    → length s.func_addr ≡ 8
    → (a : PciArray) × (pci_add_device s
          (record { entries = used ++ blank_structure ∷ rest; locked = false })
        ≡ done (record { entries = used ++ s ∷ rest; locked = false }))
      × (pci_get_device s (record { entries = used ++ s ∷ rest; locked = false })
          ≡ done (some (length used), a))
      × ((t : PciStructure) → pci_add_device t a ≡ hangs)
      × ((t : PciStructure) → pci_get_device t a ≡ hangs)
unfolding pci_add_device pci_get_device
pci_get_device-pci_add_device s used rest h lt eight =
    let itself : same_device s s ≡ true = ground arith in
    let room : unused_loop 0 (used ++ blank_structure ∷ rest) ≡ done (length used) =
      unused_loop-append s 0 used rest h (omega arith) ∙ ap done (omega arith) in
    let found : device_loop 0 s (used ++ s ∷ rest) ≡ some (length used) =
      device_loop-append s s 0 used rest h itself ∙ ap some (omega arith) in
    (
      record { entries = used ++ s ∷ rest; locked = true },
      rw
          (
            room,
            get_or-append used rest blank_structure blank_structure,
            merge_functions-zero 8 s.func_addr eight,
            set-append used rest blank_structure s,
          )
          refl,
      rw found refl,
      λ t. refl,
      λ t. refl,
    )
