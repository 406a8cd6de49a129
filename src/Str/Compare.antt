-- ===== src/Str/Compare.antt =====
-- `memcmp`, `strlen` and `dtoc` against what they are to compute.
use lord.Prelude.{
  ℕ, zero, suc, ◌+◌, ◌≤◌, ◌<◌, ◌≡◌, refl, ◌≢◌, inl, inr, some, arith, ltb, ltb→lt, ◌==◌, ==_iff,
  if◌then◌else◌, Bool-cases, ℕ_discrete,
}
use lord.Str.{Bytes, Sign, minus_one, equal, plus_one, memcmp_loop, memcmp, strlen_loop, strlen}

-- What each result of a comparison of `n` bytes from offset `i` on says of the blocks.
abbrev pub Compared : (s1 s2 i n : ℕ) → Bytes → Sign → Type 0
Compared s1 s2 i n m equal = (k : ℕ) → i ≤ k → k < i + n → m (s1 + k) ≡ m (s2 + k)
Compared s1 s2 i n m minus_one =
    (k : ℕ) × (i ≤ k)
    × (k < i + n)
    × (m (s1 + k) < m (s2 + k))
    × ((j : ℕ) → i ≤ j → j < k → m (s1 + j) ≡ m (s2 + j))
Compared s1 s2 i n m plus_one =
    (k : ℕ) × (i ≤ k)
    × (k < i + n)
    × (m (s2 + k) < m (s1 + k))
    × ((j : ℕ) → i ≤ j → j < k → m (s1 + j) ≡ m (s2 + j))

-- Agreement from offset `i + 1` on, and at `i`.
agree_from :
    (s1 s2 i u : ℕ) (m : Bytes)
    → m (s1 + i) ≡ m (s2 + i)
    → ((k : ℕ) → i + 1 ≤ k → k < u → m (s1 + k) ≡ m (s2 + k))
    → (k : ℕ) → i ≤ k
    → k < u
    → m (s1 + k) ≡ m (s2 + k)
agree_from s1 s2 i u m e h k p q = elim (ℕ_discrete i k) [
  | yes here ↦ rw (← here) e
  | no later ↦ h k (omega arith) q
]

extend :
    (s1 s2 i n : ℕ) (m : Bytes) (r : Sign)
    → m (s1 + i) ≡ m (s2 + i)
    → Compared s1 s2 (i + 1) n m r
    → Compared s1 s2 i (suc n) m r
extend s1 s2 i n m equal e h = agree_from s1 s2 i (i + suc n) m e (λ k p q. h k p (omega arith))
extend s1 s2 i n m minus_one e (k, p, q, lt, before) =
    (k, omega arith, omega arith, lt, agree_from s1 s2 i k m e before)
extend s1 s2 i n m plus_one e (k, p, q, lt, before) =
    (k, omega arith, omega arith, lt, agree_from s1 s2 i k m e before)

differ :
    (s1 s2 i n : ℕ) (m : Bytes)
    → m (s1 + i) ≢ m (s2 + i)
    → Compared s1 s2 i (suc n) m (if ltb (m (s1 + i)) (m (s2 + i)) then minus_one else plus_one)
differ s1 s2 i n m ne = elim (Bool-cases (ltb (m (s1 + i)) (m (s2 + i)))) [
  | inl below ↦
      rw below (i, omega arith, omega arith, ltb→lt _ _ below, λ j p q. absurd (omega arith))
  | inr above ↦ rw above (i, omega arith, omega arith, ground arith, λ j p q. absurd (omega arith))
]

memcmp_loop-Compared :
    (left i s1 s2 : ℕ) (m : Bytes) → Compared s1 s2 i left m (memcmp_loop left i s1 s2 m)
unfolding memcmp_loop
memcmp_loop-Compared zero i s1 s2 m = λ k p q. absurd (omega arith)
memcmp_loop-Compared (suc left) i s1 s2 m = elim (Bool-cases (m (s1 + i) == m (s2 + i))) [
  | inl agree ↦
      rw agree
        (extend s1 s2 i left m _ ((==_iff _ _).0 agree) (memcmp_loop-Compared left (i + 1) s1 s2 m))
  | inr apart ↦ rw apart (differ s1 s2 i left m (ground arith))
]

-- `memcmp` returns 0 only if the blocks agree in all `n` bytes, and otherwise -1 or 1 by the
-- order of the first two bytes that differ.
pub memcmp-Compared : (s1 s2 n : ℕ) (m : Bytes) → Compared s1 s2 0 n m (memcmp s1 s2 n m)
unfolding memcmp
memcmp-Compared s1 s2 n m = memcmp_loop-Compared n 0 s1 s2 m

-- On blocks that agree `memcmp` returns 0.
pub memcmp-equal :
    (s1 s2 n : ℕ) (m : Bytes)
    → ((k : ℕ) → k < n → m (s1 + k) ≡ m (s2 + k))
    → memcmp s1 s2 n m ≡ equal
memcmp-equal s1 s2 n m h = settle (memcmp s1 s2 n m) (memcmp-Compared s1 s2 n m)
  where
    settle : (r : Sign) → Compared s1 s2 0 n m r → r ≡ equal
    settle equal c = refl
    settle minus_one (k, p, q, lt, before) = absurd (omega (arith, h k (omega arith)))
    settle plus_one (k, p, q, lt, before) = absurd (omega (arith, h k (omega arith)))

strlen_loop-some :
    (fuel i str n : ℕ) (m : Bytes)
    → i ≤ n
    → n < i + fuel
    → m (str + n) ≡ 0
    → ((k : ℕ) → k < n → m (str + k) ≢ 0)
    → strlen_loop fuel i str m ≡ some n
unfolding strlen_loop
strlen_loop-some zero i str n m p q end before = absurd (omega arith)
strlen_loop-some (suc fuel) i str n m p q end before = elim (ℕ_discrete i n) [
  | yes here ↦ rw (here, (==_iff _ _).1 end) refl
  | no later ↦ ground (
    arith,
    before i,
    strlen_loop-some fuel (i + 1) str n m (omega arith) (omega arith) end before,
  )
]

-- `strlen` is the offset of the first zero byte, if there is one below the number of rounds.
pub strlen-some :
    (fuel str n : ℕ) (m : Bytes)
    → n < fuel
    → m (str + n) ≡ 0
    → ((k : ℕ) → k < n → m (str + k) ≢ 0)
    → strlen fuel str m ≡ some n
unfolding strlen
strlen-some fuel str n m lt end before =
    strlen_loop-some fuel 0 str n m (omega arith) (omega arith) end before
