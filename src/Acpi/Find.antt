-- ===== src/Acpi/Find.antt =====
-- The search for a table by its signature.
use lord.Prelude.{
  ℕ, zero, suc, ◌+◌, ◌≤◌, ◌<◌, ◌≡◌, sym, inl, inr, true, false, arith, Bool-cases, ℕ_discrete,
}
use lord.Str.{Bytes}
use lord.Acpi.{Tables, table_entries, table_entry, has_signature, table_loop, find_acpi_table}

-- The answer of the search among the tables from `i` on: the first that has the signature, or
-- `NULL` where none of them has.
pub data IsFirstTable (hhdm signature : ℕ) (m : Bytes) (t : Tables) (i n : ℕ) : ℕ → Type 0 where
  no_table :
      ((j : ℕ) → i ≤ j → j < n → has_signature hhdm signature m (table_entry m t j) ≡ false)
      → IsFirstTable hhdm signature m t i n 0
  at_table :
      (k : ℕ)
      → i ≤ k
      → k < n
      → has_signature hhdm signature m (table_entry m t k) ≡ true
      → ((j : ℕ) → i ≤ j → j < k → has_signature hhdm signature m (table_entry m t j) ≡ false)
      → IsFirstTable hhdm signature m t i n (table_entry m t k)

module _ (hhdm signature : ℕ) (m : Bytes) (t : Tables) where
  abbrev Misses : ℕ → Type 0
  Misses j = has_signature hhdm signature m (table_entry m t j) ≡ false

  step_back :
      (i n r : ℕ)
      → Misses i
      → IsFirstTable hhdm signature m t (i + 1) n r
      → IsFirstTable hhdm signature m t i n r
  step_back i n _ miss (IsFirstTable.no_table none_behind) = IsFirstTable.no_table λ j h k.
      elim (ℕ_discrete i j) [
        | yes same ↦ rw (sym same) miss
        | no later ↦ none_behind j (omega arith) k
      ]
  step_back i n _ miss (IsFirstTable.at_table k a b hit before) =
      IsFirstTable.at_table k (omega arith) b hit λ j h l. elim (ℕ_discrete i j) [
        | yes same ↦ rw (sym same) miss
        | no later ↦ before j (omega arith) l
      ]

  table_loop-IsFirstTable :
      (left i n : ℕ)
      → i + left ≡ n
      → IsFirstTable hhdm signature m t i n (table_loop left i hhdm signature m t)
  unfolding table_loop
  table_loop-IsFirstTable zero i n e = IsFirstTable.no_table λ j h k. absurd (omega arith)
  table_loop-IsFirstTable (suc left) i n e =
      elim (Bool-cases (has_signature hhdm signature m (table_entry m t i))) [
        | inl hit ↦
            rw (table_loop, hit)
              (IsFirstTable.at_table i (omega arith) (omega arith) hit
                λ j h k. absurd (omega arith))
        | inr miss ↦
            rw (table_loop, miss)
              (step_back i n _ miss (table_loop-IsFirstTable left (i + 1) n (omega arith)))
      ]

  -- `find_acpi_table` returns the first of the entries of the root table whose table begins with the
  -- four bytes of the signature, and `NULL` if there is none.
  pub find_acpi_table-IsFirstTable :
      IsFirstTable hhdm signature m t 0 (table_entries m t) (find_acpi_table hhdm signature m t)
  unfolding find_acpi_table
  find_acpi_table-IsFirstTable = table_loop-IsFirstTable (table_entries m t) 0 _ (omega arith)
