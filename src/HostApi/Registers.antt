-- ===== src/HostApi/Registers.antt =====
-- Reads of device registers behind writes.
use lord.Prelude.{
  ℕ, zero, suc, ◌+◌, ◌-◌, ◌*◌, ◌/◌, ◌%◌, ◌^◌, ◌≤◌, ◌<◌, ◌≡◌, refl, ap, inl, inr, Bool, false,
  Bool-cases, ◌&&◌, ◌||◌, Option, none, some, arith, ◌==◌, leb, ltb, if◌then◌else◌, ℕ_discrete,
}
use lord.Str.{Bytes, put}
use lord.Acpi.{word16, word32}
use lord.HostApi.{
  put16, put32, status_ok, status_internal_error, uacpi_kernel_pci_read, uacpi_kernel_pci_write,
}

-- The widths that the kernel knows.
abbrev pub is_width : ℕ → Bool
is_width w = w == 1 || w == 2 || w == 4

-- The byte at `b` behind a store of `w` bytes of `v` at `a`, the lowest first.
abbrev pub stored : Bytes → (a w v b : ℕ) → ℕ
stored m a w v b = if leb a b && ltb b (a + w) then v / 2 ^ (8 * (b - a)) % 2 ^ 8 else m b

put_self : (m : Bytes) (a v : ℕ) → put m a v a ≡ v
put_self m a v = ground arith

returned : (v w : ℕ) → v ≡ w → ◌≡◌ {A = ℕ × Option ℕ} (status_ok, some v) (status_ok, some w)
returned v w e = ap (λ t. (status_ok, some t)) e

put16-word16 : (m : Bytes) (a v : ℕ) → v < 2 ^ 16 → word16 (put16 m a v) a ≡ v
put16-word16 m a v h = ground arith

put32-word32 : (m : Bytes) (a v : ℕ) → v < 2 ^ 32 → word32 (put32 m a v) a ≡ v
put32-word32 m a v h = ground arith

put32_in :
    (m : Bytes) (a v i : ℕ) → i < 4 → put32 m a (v % 2 ^ 32) (a + i) ≡ v / 2 ^ (8 * i) % 2 ^ 8
put32_in m a v zero h = ground arith
put32_in m a v (suc zero) h = ground arith
put32_in m a v (suc (suc zero)) h = ground arith
put32_in m a v (suc (suc (suc zero))) h = ground arith
put32_in m a v (suc (suc (suc (suc i)))) h = absurd (omega arith)

put16_in :
    (m : Bytes) (a v i : ℕ) → i < 2 → put16 m a (v % 2 ^ 16) (a + i) ≡ v / 2 ^ (8 * i) % 2 ^ 8
put16_in m a v zero h = ground arith
put16_in m a v (suc zero) h = ground arith
put16_in m a v (suc (suc i)) h = absurd (omega arith)

put_in : (m : Bytes) (a v i : ℕ) → i < 1 → put m a (v % 2 ^ 8) (a + i) ≡ v / 2 ^ (8 * i) % 2 ^ 8
put_in m a v zero h = ground arith
put_in m a v (suc i) h = absurd (omega arith)

-- A memory that has the bytes of `v` in a range and those of `m` elsewhere.
module _ (m m' : Bytes) (a w v b : ℕ)
    (inside : (i : ℕ) → i < w → m' (a + i) ≡ v / 2 ^ (8 * i) % 2 ^ 8) (below : b < a → m' b ≡ m b)
    (above : a + w ≤ b → m' b ≡ m b) where
  bytes-stored : m' b ≡ stored m a w v b
  bytes-stored = elim (Bool-cases (leb a b && ltb b (a + w))) [
    | inl here ↦
        let e : a + (b - a) ≡ b = ground arith in rw here (rw e at (inside (b - a) (ground arith)))
    | inr out ↦ rw out (ground (arith, below, above))
  ]

-- `uacpi_kernel_pci_write` and then `uacpi_kernel_pci_read` of the same register: for a width of 1, 2
-- or 4 bytes both return OK, the write stores the low bytes of the value, the lowest first, the read
-- gives them back, and no other byte is changed; for any other width both return an internal error,
-- the read gives nothing, and no byte is changed.
pub uacpi_kernel_pci_read-write :
    (m : Bytes) (device offset byte_width value b : ℕ)
    → ((uacpi_kernel_pci_write device offset byte_width value m).0
        ≡ (if is_width byte_width then status_ok else status_internal_error))
      × (uacpi_kernel_pci_read
            (uacpi_kernel_pci_write device offset byte_width value m).1
            device
            offset
            byte_width
          ≡ (if is_width byte_width
              then (status_ok, some (value % 2 ^ (8 * byte_width)))
              else (status_internal_error, none)))
      × ((uacpi_kernel_pci_write device offset byte_width value m).1 b ≡ (
          if is_width byte_width
          then stored m ((device + offset) % 2 ^ 64) byte_width value b
          else m b))
unfolding uacpi_kernel_pci_read uacpi_kernel_pci_write
uacpi_kernel_pci_read-write m device offset byte_width value b =
    let a = (device + offset) % 2 ^ 64 in
    elim (ℕ_discrete byte_width 1) [
      | yes e ↦ rw e (
        refl,
        returned _ _ (put_self m a (value % 2 ^ 8)),
        bytes-stored m (put m a (value % 2 ^ 8)) a 1 value b (put_in m a value)
            (λ h. ground (arith, h)) (λ h. ground (arith, h)),
      )
      | no n1 ↦ elim (ℕ_discrete byte_width 2) [
        | yes e ↦ rw e (
          refl,
          returned _ _ (put16-word16 m a (value % 2 ^ 16) (omega arith)),
          bytes-stored m (put16 m a (value % 2 ^ 16)) a 2 value b (put16_in m a value)
              (λ h. ground (arith, h)) (λ h. ground (arith, h)),
        )
        | no n2 ↦ elim (ℕ_discrete byte_width 4) [
          | yes e ↦ rw e (
            refl,
            returned _ _ (put32-word32 m a (value % 2 ^ 32) (omega arith)),
            bytes-stored m (put32 m a (value % 2 ^ 32)) a 4 value b (put32_in m a value)
                (λ h. ground (arith, h)) (λ h. ground (arith, h)),
          )
          | no n4 ↦
              let f1 : (byte_width == 1) ≡ false = ground (arith, n1) in
              let f2 : (byte_width == 2) ≡ false = ground (arith, n2) in
              let f4 : (byte_width == 4) ≡ false = ground (arith, n4) in
              rw (f1, f2, f4) (refl, refl, refl)
        ]
      ]
    ]
