-- ===== src/Drivers/Serial/Paced.antt =====
-- `serial_print` sends a text, and never overruns the transmitter.
use mathlib.Core.List.{append_assoc}
use lord.Prelude.{
  ℕ, zero, suc, ◌+◌, ◌*◌, ◌/◌, ◌%◌, ◌≤◌, ◌<◌, ◌≡◌, refl, ap, ap₂, subst, ◌∙◌, Bool, true, false,
  ◌&&◌, List, [], ◌∷◌, ◌++◌, arith, bit_and, ◌==◌, if◌then◌else◌, inl, inr, ℕ_discrete, Bool-cases,
  length,
}
use lord.Bits.{and_field}
use lord.Kernel.{done}
use lord.Str.{Bytes}
use lord.Drivers.Serial.{Access, inb, outb, wait_loop, serial_write, print_loop, serial_print}

-- Bit 5 of the line status: the transmitter takes a byte.
abbrev pub is_ready : ℕ → Bool
is_ready status = status / 32 % 2 == 1

-- Each write to the data port has behind the last write a read of the line status, and the last such
-- read shows bit 5. `ready` is what the last one before the accesses has shown.
abbrev pub is_paced : (ready : Bool) → List Access → Bool
is_paced ready [] = true
is_paced ready (inb port byte ∷ s) = is_paced (if port == 0x3fd then is_ready byte else ready) s
is_paced ready (outb port byte ∷ s) =
    if port == 0x3f8 then ready && is_paced false s else is_paced ready s

-- The bytes written to the data port.
abbrev pub sent : List Access → List ℕ
sent [] = []
sent (inb port byte ∷ s) = sent s
sent (outb port byte ∷ s) = if port == 0x3f8 then byte ∷ sent s else sent s

-- A text with its terminator in memory.
abbrev pub IsText : Bytes → ℕ → List ℕ → Type 0
IsText m a [] = m a ≡ 0
IsText m a (x ∷ xs) = (m a ≡ x) × (0 < x) × (x < 256) × IsText m (a + 1) xs

IsText-at : (m : Bytes) {a b : ℕ} → a ≡ b → (xs : List ℕ) → IsText m a xs → IsText m b xs
IsText-at m e xs is = subst (λ t. IsText m t xs) e is

mask_bit : (status : ℕ) → bit_and status 0x20 ≡ status / 32 % 2 * 32
mask_bit status = and_field 5 1 status

ready_not_busy :
    (status : ℕ) → (bit_and status 0x20 == 0) ≡ true → is_ready status ≡ true → false ≡ true
ready_not_busy status busy ready = ground (arith, mask_bit status)

ready_byte : (status : ℕ) → status / 32 % 2 ≡ 1 → is_ready (status % 256) ≡ true
ready_byte status h = ground (arith, h)

-- What the accesses of a wait do: the last one shows bit 5, and none is a write.
pub record IsWait (tr : List Access) : Type 0 where
  pub paced : (ready : Bool) (s : List Access) → is_paced ready (tr ++ s) ≡ is_paced true s
  pub silent : (s : List Access) → sent (tr ++ s) ≡ sent s

module _ (line_status : ℕ → ℕ) where
  one_read :
      (k : ℕ)
      → is_ready (line_status k % 256) ≡ true
      → IsWait (inb 0x3fd (line_status k % 256) ∷ [])
  one_read k h = record { paced = λ ready s. ap (λ b. is_paced b s) h; silent = λ s. refl }

  more_reads :
      (k : ℕ) (tr : List Access) → IsWait tr → IsWait (inb 0x3fd (line_status k % 256) ∷ tr)
  more_reads k tr w = record { paced = λ ready s. w.paced _ s; silent = w.silent }

  wait_loop-IsWait :
      (fuel k j : ℕ)
      → k ≤ j
      → j < k + fuel
      → is_ready (line_status j % 256) ≡ true
      → (tr : List Access) × (next : ℕ) × (wait_loop line_status fuel 0x20 k ≡ done (tr, next))
        × IsWait tr
  unfolding wait_loop
  wait_loop-IsWait zero k j from until ready = absurd (omega arith)
  wait_loop-IsWait (suc fuel) k j from until ready =
      elim (Bool-cases (bit_and (line_status k % 256) 0x20 == 0)) [
        | inl busy ↦
            let (tr, next, returns, wait) =
              wait_loop-IsWait fuel (suc k) j (later k j from busy ready) (omega (arith, until))
                ready in
            (
              inb 0x3fd (line_status k % 256) ∷ tr,
              next,
              rw (busy, returns) refl,
              more_reads k tr wait,
            )
        | inr free ↦ (
          inb 0x3fd (line_status k % 256) ∷ [],
          suc k,
          rw free refl,
          one_read k (ground (arith, mask_bit (line_status k % 256), free)),
        )
      ]
    where
      later :
          (k j : ℕ)
          → k ≤ j
          → (bit_and (line_status k % 256) 0x20 == 0) ≡ true
          → is_ready (line_status j % 256) ≡ true
          → suc k ≤ j
      later k j from busy ready = elim (ℕ_discrete k j) [
        | yes same ↦ absurd (cc (ready_not_busy _ (rw same at busy) ready))
        | no other ↦ ground (arith, from, other)
      ]

  -- The transmitter takes a byte again within `fuel` reads of the line status.
  module _ (fuel : ℕ)
      (frees : (k : ℕ) → (j : ℕ) × (k ≤ j) × (j < k + fuel) × (line_status j / 32 % 2 ≡ 1)) where
    serial_write-paced :
        (byte k : ℕ)
        → (tr : List Access) × (next : ℕ) × (serial_write line_status fuel byte k ≡ done (tr, next))
          × ((s : List Access) → is_paced false (tr ++ s) ≡ is_paced false s)
          × ((s : List Access) → sent (tr ++ s) ≡ byte % 256 ∷ sent s)
    unfolding serial_write
    serial_write-paced byte k =
        let (j, from, until, bit) = frees k in
        let (tr, next, returns, wait) =
          wait_loop-IsWait fuel k j from until (ready_byte (line_status j) bit) in
        (
          tr ++ outb 0x3f8 (byte % 256) ∷ [],
          next,
          rw (serial_write, returns) refl,
          λ s.
              rw
                (
                  append_assoc tr (outb 0x3f8 (byte % 256) ∷ []) s,
                  wait.paced false (outb 0x3f8 (byte % 256) ∷ s),
                )
                refl,
          λ s.
              rw
                (
                  append_assoc tr (outb 0x3f8 (byte % 256) ∷ []) s,
                  wait.silent (outb 0x3f8 (byte % 256) ∷ s),
                )
                refl,
        )

    print_loop-paced :
        (xs : List ℕ) (rounds str i k : ℕ) (m : Bytes)
        → IsText m (str + i) xs
        → length xs < rounds
        → (tr : List Access) × (next : ℕ) × (print_loop line_status rounds fuel str i k m
            ≡ done (tr, next))
          × (is_paced false tr ≡ true)
          × (sent tr ≡ xs)
    unfolding print_loop
    print_loop-paced xs zero str i k m is enough = absurd (omega (arith, enough))
    print_loop-paced [] (suc rounds) str i k m is enough = ([], k, rw is refl, refl, refl)
    print_loop-paced (x ∷ xs) (suc rounds) str i k m (at, pos, byte, rest) enough =
        let (tr, next, returns, paced, sends) = serial_write-paced x k in
        let (tr', next', returns', paced', sends') =
          print_loop-paced xs rounds str (i + 1) next m (IsText-at m (omega arith) xs rest)
            (omega (arith, enough)) in
        let more : (x == 0) ≡ false = ground (arith, pos) in
        (
          tr ++ tr',
          next',
          rw (at, more, returns, returns') refl,
          paced tr' ∙ paced',
          sends tr' ∙ ap₂ (λ (b : ℕ) bs. b ∷ bs) (omega arith) sends',
        )

    -- `serial_print` returns, if the transmitter takes a byte again within `fuel` reads of the line
    -- status and `rounds` is greater than the length of the text: then it has sent the bytes of the
    -- text before its terminator in their order, and has read before each of them, and behind the one
    -- before, that the transmitter is ready.
    pub serial_print-paced :
        (xs : List ℕ) (rounds str k : ℕ) (m : Bytes)
        → IsText m str xs
        → length xs < rounds
        → (tr : List Access) × (next : ℕ) × (serial_print line_status rounds fuel str k m
            ≡ done (tr, next))
          × (is_paced false tr ≡ true)
          × (sent tr ≡ xs)
    unfolding serial_print
    serial_print-paced xs rounds str k m is enough =
        print_loop-paced xs rounds str 0 k m (IsText-at m (omega arith) xs is) enough
