-- ===== src/Memory/Compare.antt =====
-- What the three results of `memcmp` say.
use hobby_os_kernel.Common.{
  ℕ, zero, suc, ◌+◌, ◌<◌, ◌≡◌, sym, ◌⊎◌, inl, inr, arith, ltb, ◌==◌, Bool-cases, ==_iff, ltb→lt,
}
use hobby_os_kernel.Memory.{Mem, Verdict, below, same, above, compare_bytes, memcmp}

-- The ranges agree from byte `i` on, for so many bytes.
abbrev pub Agree : ℕ → ℕ → ℕ → ℕ → Mem → Type 0
Agree zero i s1 s2 m = Unit {0}
Agree (suc rounds) i s1 s2 m = (m (s1 + i) ≡ m (s2 + i)) × Agree rounds (i + 1) s1 s2 m

-- The first byte that differs is the smaller one in the first range.
abbrev pub Precedes : ℕ → ℕ → ℕ → ℕ → Mem → Type 0
Precedes zero i s1 s2 m = ⊥
Precedes (suc rounds) i s1 s2 m =
    (m (s1 + i) < m (s2 + i)) ⊎ ((m (s1 + i) ≡ m (s2 + i)) × Precedes rounds (i + 1) s1 s2 m)

-- What each verdict stands for.
abbrev pub Judges : Verdict → ℕ → ℕ → ℕ → ℕ → Mem → Type 0
Judges below rounds i s1 s2 m = Precedes rounds i s1 s2 m
Judges same rounds i s1 s2 m = Agree rounds i s1 s2 m
Judges above rounds i s1 s2 m = Precedes rounds i s2 s1 m

Judges-cons :
    (v : Verdict) (rounds i s1 s2 : ℕ) (m : Mem)
    → m (s1 + i) ≡ m (s2 + i)
    → Judges v rounds (i + 1) s1 s2 m
    → Judges v (suc rounds) i s1 s2 m
Judges-cons below rounds i s1 s2 m e j = inr (e, j)
Judges-cons same rounds i s1 s2 m e j = (e, j)
Judges-cons above rounds i s1 s2 m e j = inr (sym e, j)

compare_bytes-Judges :
    (rounds i s1 s2 : ℕ) (m : Mem) → Judges (compare_bytes rounds i s1 s2 m) rounds i s1 s2 m
unfolding compare_bytes
compare_bytes-Judges zero i s1 s2 m = tt
compare_bytes-Judges (suc rounds) i s1 s2 m = elim (Bool-cases (m (s1 + i) == m (s2 + i))) [
  | inl e ↦ rw e (
      Judges-cons (compare_bytes rounds (i + 1) s1 s2 m) rounds i s1 s2 m ((==_iff _ _).0 e)
        (compare_bytes-Judges rounds (i + 1) s1 s2 m))
  | inr e ↦ rw e (elim (Bool-cases (ltb (m (s1 + i)) (m (s2 + i)))) [
    | inl lt ↦ rw lt (inl (ltb→lt _ _ lt))
    | inr ge ↦ rw ge (inl (ground arith))
  ])
]

-- `memcmp` returns 0 only for equal ranges, and otherwise the order of the first bytes that differ.
pub memcmp-Judges : (s1 s2 n : ℕ) (m : Mem) → Judges (memcmp s1 s2 n m) n 0 s1 s2 m
unfolding memcmp
memcmp-Judges s1 s2 n m = compare_bytes-Judges n 0 s1 s2 m
