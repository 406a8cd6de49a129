-- ===== src/Acpi/Walk.antt =====
-- The walk over the interrupt controller structures.
use lord.Prelude.{
  ℕ, zero, suc, ◌+◌, ◌≤◌, ◌<◌, ◌≡◌, refl, ◌≢◌, inl, inr, true, false, Option, none, some, List, [],
  ◌∷◌, arith, ltb, Option-cases,
}
use lord.Kernel.{done, hangs}
use lord.Str.{Bytes}
use lord.Acpi.{
  ics_base, ics_length, ics_kind, ics_size, ics_loop, has_kind, overrides, or_default, find_ics,
  find_iso,
}

-- The structures from offset `i` on stand at the offsets `offsets`; none of them has length 0.
abbrev pub Laid : Bytes → (base_addr length i : ℕ) → List ℕ → Type 0
Laid m base_addr length i [] = length ≤ i
Laid m base_addr length i (o ∷ offsets) =
    (o ≡ i)
    × (i < length)
    × (ics_size m (base_addr + i) ≢ 0)
    × Laid m base_addr length (i + ics_size m (base_addr + i)) offsets

-- The first of the structures that `found` accepts.
pub first_found : (found : ℕ → Option ℕ) → (base_addr : ℕ) → List ℕ → Option ℕ
first_found found base_addr [] = none
first_found found base_addr (o ∷ offsets) = elim (found (base_addr + o)) [
  | some r ↦ some r
  | none ↦ first_found found base_addr offsets
]

ics_loop-Laid :
    (found : ℕ → Option ℕ) (fuel i length base_addr : ℕ) (m : Bytes) (offsets : List ℕ)
    → 0 < fuel
    → length < fuel + i
    → Laid m base_addr length i offsets
    → ics_loop found fuel i length base_addr m ≡ done (first_found found base_addr offsets)
unfolding ics_loop first_found
ics_loop-Laid found zero i length base_addr m [] some_fuel enough laid = absurd (omega arith)
ics_loop-Laid found zero i length base_addr m (o ∷ offsets) some_fuel enough laid =
    absurd (omega arith)
ics_loop-Laid found (suc fuel) i length base_addr m [] some_fuel enough laid =
    let out : ltb i length ≡ false = ground arith in rw (ics_loop, out) refl
ics_loop-Laid found (suc fuel) i length base_addr m (o ∷ offsets) some_fuel enough laid =
    let inside : ltb i length ≡ true = ground (arith, laid.1) in
    elim (Option-cases (found (base_addr + i))) [
      | inr (r, hit) ↦ rw (ics_loop, inside, first_found, laid.0, hit) refl
      | inl miss ↦
          rw (ics_loop, inside, first_found, laid.0, miss)
            (ics_loop-Laid found fuel (i + ics_size m (base_addr + i)) length base_addr m offsets
              (omega (arith, laid.1)) (omega (arith, laid.2)) laid.3)
    ]

-- Where no structure of the MADT has length 0, `find_ics` returns the first structure of the given
-- type, `NULL` if there is none; and `find_iso` returns the interrupt of the first source override
-- of the legacy pin, and the pin itself if there is none.
pub find_ics-first_found :
    (madt kind legacy : ℕ) (m : Bytes) (offsets : List ℕ)
    → Laid m (ics_base madt) (ics_length m madt) 0 offsets
    → (find_ics madt kind m
        ≡ done (or_default 0 (first_found (has_kind m kind) (ics_base madt) offsets)))
      × (find_iso madt legacy m
          ≡ done (or_default legacy (first_found (overrides m legacy) (ics_base madt) offsets)))
unfolding find_ics find_iso
find_ics-first_found madt kind legacy m offsets laid = (
  rw
      (ics_loop-Laid (has_kind m kind) (ics_length m madt + 1) 0 (ics_length m madt) (ics_base madt)
        m offsets (omega arith) (omega arith) laid)
      refl,
  rw
      (ics_loop-Laid (overrides m legacy) (ics_length m madt + 1) 0 (ics_length m madt)
        (ics_base madt) m offsets (omega arith) (omega arith) laid)
      refl,
)

ics_loop-stuck :
    (found : ℕ → Option ℕ) (fuel i length base_addr : ℕ) (m : Bytes)
    → i < length
    → ics_size m (base_addr + i) ≡ 0
    → found (base_addr + i) ≡ none
    → ics_loop found fuel i length base_addr m ≡ hangs
unfolding ics_loop
ics_loop-stuck found zero i length base_addr m lt empty miss = refl
ics_loop-stuck found (suc fuel) i length base_addr m lt empty miss =
    let inside : ltb i length ≡ true = ground arith in
    let same : i + ics_size m (base_addr + i) ≡ i = omega (arith, empty) in
    rw (ics_loop, inside, miss, same) (ics_loop-stuck found fuel i length base_addr m lt empty miss)

-- Both walks run forever where they start at a structure of length 0 that is not what they look for:
-- the loops of both are not done after any number of rounds.
pub find_ics-hangs :
    (madt kind legacy : ℕ) (m : Bytes)
    → 0 < ics_length m madt
    → ics_size m (ics_base madt) ≡ 0
    → ics_kind m (ics_base madt) ≢ kind
    → ics_kind m (ics_base madt) ≢ 2
    → (find_ics madt kind m ≡ hangs)
      × (find_iso madt legacy m ≡ hangs)
      × ((fuel : ℕ)
          → (ics_loop (has_kind m kind) fuel 0 (ics_length m madt) (ics_base madt) m ≡ hangs)
            × (ics_loop (overrides m legacy) fuel 0 (ics_length m madt) (ics_base madt) m ≡ hangs))
unfolding find_ics find_iso
find_ics-hangs madt kind legacy m some_left empty other no_override =
    let a : ics_base madt + 0 ≡ ics_base madt = omega arith in
    let zero_size : ics_size m (ics_base madt + 0) ≡ 0 = rw a empty in
    let no_kind : has_kind m kind (ics_base madt + 0) ≡ none = rw a (ground (arith, other)) in
    let none_overrides : overrides m legacy (ics_base madt + 0) ≡ none =
      rw a (ground (arith, no_override)) in
    let stuck = λ (fuel : ℕ).
      ics_loop-stuck (has_kind m kind) fuel 0 (ics_length m madt) (ics_base madt) m some_left
        zero_size no_kind in
    let stuck_too = λ (fuel : ℕ).
      ics_loop-stuck (overrides m legacy) fuel 0 (ics_length m madt) (ics_base madt) m some_left
        zero_size none_overrides in
    (
      rw (stuck (ics_length m madt + 1)) refl,
      rw (stuck_too (ics_length m madt + 1)) refl,
      λ fuel. (stuck fuel, stuck_too fuel),
    )
