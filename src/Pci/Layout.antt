-- ===== src/Pci/Layout.antt =====
-- The array of src/sys/pci.c in the bytes of memory.
use lord.Prelude.{ℕ, zero, suc, ◌+◌, ◌*◌, ◌/◌, ◌%◌, ◌^◌, ◌<◌, ◌≡◌, refl, ◌∙◌, List, [], ◌∷◌, arith}
use lord.Str.{Bytes, put}
use lord.Acpi.{word32}
use lord.Pci.{PciStructure}
use lord.Pci.Start.{pci_structure_size, put_bytes, put_functions, put_structure, put_array}

-- A byte behind the stores depends on no other byte before them.
put-local : (m m' : Bytes) (a v x : ℕ) → m x ≡ m' x → put m a v x ≡ put m' a v x
put-local m m' a v x same = ground (arith, same)

put_bytes-local :
    (m m' : Bytes) (a width v x : ℕ)
    → m x ≡ m' x
    → put_bytes m a width v x ≡ put_bytes m' a width v x
unfolding put_bytes
put_bytes-local m m' a zero v x same = same
put_bytes-local m m' a (suc width) v x same =
    put_bytes-local (put m a (v % 2 ^ 8)) (put m' a (v % 2 ^ 8)) (a + 1) width (v / 2 ^ 8) x
      (put-local m m' a (v % 2 ^ 8) x same)

put_functions-local :
    (m m' : Bytes) (a : ℕ) (fs : List ℕ) (x : ℕ)
    → m x ≡ m' x
    → put_functions m a fs x ≡ put_functions m' a fs x
unfolding put_functions
put_functions-local m m' a [] x same = same
put_functions-local m m' a (f ∷ fs) x same =
    put_functions-local (put_bytes m a 8 f) (put_bytes m' a 8 f) (a + 8) fs x
      (put_bytes-local m m' a 8 f x same)

put_structure-local :
    (m m' : Bytes) (a : ℕ) (s : PciStructure) (x : ℕ)
    → m x ≡ m' x
    → put_structure m a s x ≡ put_structure m' a s x
unfolding put_structure
put_structure-local m m' a s x same = put_functions-local _ _ (a + 8) s.func_addr x (
    put_bytes-local (put_bytes (put_bytes m a 2 s.segment) (a + 2) 1 s.bus)
      (put_bytes (put_bytes m' a 2 s.segment) (a + 2) 1 s.bus) (a + 3) 1 s.device x
      (put_bytes-local (put_bytes m a 2 s.segment) (put_bytes m' a 2 s.segment) (a + 2) 1 s.bus x
        (put_bytes-local m m' a 2 s.segment x same)))

pub put_array-local :
    (m m' : Bytes) (a : ℕ) (ss : List PciStructure) (x : ℕ)
    → m x ≡ m' x
    → put_array m a ss x ≡ put_array m' a ss x
unfolding put_array
put_array-local m m' a [] x same = same
put_array-local m m' a (s ∷ ss) x same =
    put_array-local (put_structure m a s) (put_structure m' a s) (a + pci_structure_size) ss x
      (put_structure-local m m' a s x same)

-- Bytes in front of the stores.
put_bytes_before : (m : Bytes) (a width v x : ℕ) → x < a → put_bytes m a width v x ≡ m x
unfolding put_bytes
put_bytes_before m a zero v x lt = refl
put_bytes_before m a (suc width) v x lt =
    put_bytes_before (put m a (v % 2 ^ 8)) (a + 1) width (v / 2 ^ 8) x (omega arith) ∙ ground arith

put_functions_before :
    (m : Bytes) (a : ℕ) (fs : List ℕ) (x : ℕ) → x < a → put_functions m a fs x ≡ m x
unfolding put_functions
put_functions_before m a [] x lt = refl
put_functions_before m a (f ∷ fs) x lt =
    put_functions_before (put_bytes m a 8 f) (a + 8) fs x (omega arith)
    ∙ put_bytes_before m a 8 f x lt

put_structure_before :
    (m : Bytes) (a : ℕ) (s : PciStructure) (x : ℕ) → x < a → put_structure m a s x ≡ m x
unfolding put_structure
put_structure_before m a s x lt =
    put_functions_before _ (a + 8) s.func_addr x (omega arith)
    ∙ put_bytes_before (put_bytes (put_bytes m a 2 s.segment) (a + 2) 1 s.bus) (a + 3) 1 s.device x
        (omega arith)
    ∙ put_bytes_before (put_bytes m a 2 s.segment) (a + 2) 1 s.bus x (omega arith)
    ∙ put_bytes_before m a 2 s.segment x lt

put_array_before :
    (m : Bytes) (a : ℕ) (ss : List PciStructure) (x : ℕ) → x < a → put_array m a ss x ≡ m x
unfolding put_array
put_array_before m a [] x lt = refl
put_array_before m a (s ∷ ss) x lt =
    put_array_before (put_structure m a s) (a + pci_structure_size) ss x (omega arith)
    ∙ put_structure_before m a s x lt

numbers_start :
    (m : Bytes) (a segment bus device : ℕ)
    → word32 (put_bytes (put_bytes (put_bytes m a 2 segment) (a + 2) 1 bus) (a + 3) 1 device) a
      ≡ segment % 2 ^ 16 + bus % 2 ^ 8 * 2 ^ 16 + device % 2 ^ 8 * 2 ^ 24
unfolding put_bytes
numbers_start m a segment bus device = ground arith

-- The first four bytes of a structure: its segment, bus and device.
put_structure_start :
    (m : Bytes) (a : ℕ) (s : PciStructure)
    → word32 (put_structure m a s) a
      ≡ s.segment % 2 ^ 16 + s.bus % 2 ^ 8 * 2 ^ 16 + s.device % 2 ^ 8 * 2 ^ 24
unfolding put_structure
put_structure_start m a s = omega (
  arith,
  kept a (omega arith),
  kept (a + 1) (omega arith),
  kept (a + 2) (omega arith),
  kept (a + 2 + 1) (omega arith),
  numbers_start m a s.segment s.bus s.device,
)
  where
    numbers : Bytes
    numbers = put_bytes (put_bytes (put_bytes m a 2 s.segment) (a + 2) 1 s.bus) (a + 3) 1 s.device

    kept : (x : ℕ) → x < a + 8 → put_functions numbers (a + 8) s.func_addr x ≡ numbers x
    kept x lt = put_functions_before numbers (a + 8) s.func_addr x lt

-- The first four bytes of the array are those of its first structure.
pub put_array_start :
    (m : Bytes) (a : ℕ) (s : PciStructure) (ss : List PciStructure)
    → word32 (put_array m a (s ∷ ss)) a
      ≡ s.segment % 2 ^ 16 + s.bus % 2 ^ 8 * 2 ^ 16 + s.device % 2 ^ 8 * 2 ^ 24
unfolding put_array
put_array_start m a s ss = omega (
  arith,
  kept a (omega arith),
  kept (a + 1) (omega arith),
  kept (a + 2) (omega arith),
  kept (a + 2 + 1) (omega arith),
  put_structure_start m a s,
)
  where
    kept :
        (x : ℕ)
        → x < a + pci_structure_size
        → put_array (put_structure m a s) (a + pci_structure_size) ss x ≡ put_structure m a s x
    kept x lt = put_array_before (put_structure m a s) (a + pci_structure_size) ss x lt
