-- ===== src/Boot/Found.antt =====
-- The module that `find_module` finds.
use hobby_os_kernel.Common.{
  ℕ, zero, suc, ◌+◌, ◌<◌, ◌≤◌, ◌≡◌, ◌≢◌, ◌↔◌, inl, inr, refl, sym, ap, ◌∙◌, subst, true, false,
  List, [], ◌∷◌, ◌++◌, Option, none, some, arith, length, length-append, All, Bool-cases, ◌==◌,
  ==_iff, ap₂, ltb, lt→ltb, ltb→lt, ◌-◌, ==_ne,
}
use hobby_os_kernel.Memory.{Mem}
use hobby_os_kernel.Boot.{
  LimineFile, string_length, same_from, ends_in, search_modules, find_module,
}

-- At `s` lies the string of the characters `cs`.
abbrev pub StringAt : Mem → ℕ → List ℕ → Type 0
StringAt m s [] = m s ≡ 0
StringAt m s (c ∷ cs) = (m s ≡ c) × (c ≢ 0) × StringAt m (s + 1) cs

abbrev pub EndsWith : List ℕ → List ℕ → Type 0
EndsWith cs ss = (front : List ℕ) × (cs ≡ front ++ ss)

string_length_lem :
    (fuel : ℕ) (m : Mem) (s n : ℕ) (cs : List ℕ)
    → StringAt m (s + n) cs
    → length cs < fuel
    → string_length fuel m s n ≡ some (n + length cs)
unfolding string_length
string_length_lem zero m s n cs at h = absurd (omega arith)
string_length_lem (suc fuel) m s n [] at h = rw at (ap some (omega arith))
string_length_lem (suc fuel) m s n (c ∷ cs) (e, ne, at) h =
    rw (e, ==_ne c 0 ne)
      (string_length_lem fuel m s (n + 1) cs (subst (λ a. StringAt m a cs) (omega arith) at)
          (omega arith)
        ∙ ap some (omega arith))

string_length-whole :
    (fuel : ℕ) (m : Mem) (s : ℕ) (cs : List ℕ)
    → StringAt m s cs
    → length cs < fuel
    → string_length fuel m s 0 ≡ some (length cs)
string_length-whole fuel m s cs at h =
    string_length_lem fuel m s 0 cs (subst (λ a. StringAt m a cs) (omega arith) at) h
    ∙ ap some (omega arith)

true_ne_false : true ≢ false
true_ne_false e = ground arith

abbrev first_of : List ℕ → ℕ
first_of [] = 0
first_of (c ∷ cs) = c

abbrev tail_of : List ℕ → List ℕ
tail_of [] = []
tail_of (c ∷ cs) = cs

-- What lies at the tail is compared with the suffix.
same_from_iff :
    (m : Mem) (j tail suffix : ℕ) (ds ss : List ℕ)
    → StringAt m (tail + j) ds
    → StringAt m (suffix + j) ss
    → length ds ≡ length ss
    → (same_from (length ss) j tail suffix m ≡ true) ↔ (ds ≡ ss)
unfolding same_from
same_from_iff m j tail suffix [] [] a b h = (λ e. refl, λ e. refl)
same_from_iff m j tail suffix [] (c ∷ ss) a b h = absurd (omega arith)
same_from_iff m j tail suffix (d ∷ ds) [] a b h = absurd (omega arith)
same_from_iff m j tail suffix (d ∷ ds) (c ∷ ss) (e, ne, a) (e', ne', b) h =
    let ih =
      same_from_iff m (j + 1) tail suffix ds ss (subst (λ q. StringAt m q ds) (omega arith) a)
        (subst (λ q. StringAt m q ss) (omega arith) b) (omega arith) in
    rw (e, e')
      (elim (Bool-cases (d == c)) [
        | inl same ↦ rw same (
          (λ t. ap₂ (λ x xs. x ∷ xs) ((==_iff d c).0 same) (ih.0 t)),
          (λ t. ih.1 (ap (λ l. tail_of l) t)),
        )
        | inr differ ↦ rw differ ((λ t. ground (arith, t)), (λ t. absurd (clash t differ)))
      ])
  where
    clash : ◌≡◌ {A = List ℕ} (d ∷ ds) (c ∷ ss) → (d == c) ≡ false → ⊥
    clash t ne = ground (arith, ap (λ l. first_of l) t)

StringAt-drop :
    (m : Mem) (p : ℕ) (front ds : List ℕ)
    → StringAt m p (front ++ ds)
    → StringAt m (p + length front) ds
StringAt-drop m p [] ds at = subst (λ a. StringAt m a ds) (omega arith) at
StringAt-drop m p (c ∷ front) ds (e, ne, at) =
    subst (λ a. StringAt m a ds) (omega arith) (StringAt-drop m (p + 1) front ds at)

-- A list is a front and the last `n` elements.
split_last :
    (n : ℕ) (cs : List ℕ)
    → n ≤ length cs
    → (front : List ℕ) × (ds : List ℕ) × (cs ≡ front ++ ds) × (length ds ≡ n)
split_last n [] h = ([], [], refl, omega arith)
split_last n (c ∷ cs) h = elim (Bool-cases (n == length (c ∷ cs))) [
  | inl e ↦ ([], c ∷ cs, refl, ground arith)
  | inr ne ↦
      let (front, ds, e, len) = split_last n cs (ground arith) in
      (c ∷ front, ds, ap (λ l. c ∷ l) e, len)
]

module _ (m : Mem) (suffix : ℕ) {ss : List ℕ} (at_suffix : StringAt m suffix ss) where
  tail_iff :
      (path : ℕ) (front ds : List ℕ)
      → StringAt m path (front ++ ds)
      → length ds ≡ length ss
      → (ends_in m suffix (length ss) path (length (front ++ ds)) ≡ true) ↔ (ds ≡ ss)
  unfolding ends_in
  tail_iff path front ds at h =
      rw (long_enough, tail)
        (same_from_iff m 0 (path + length front) suffix ds ss
          (subst (λ a. StringAt m a ds) (omega arith) (StringAt-drop m path front ds at))
          (subst (λ a. StringAt m a ss) (omega arith) at_suffix) h)
    where
      long_enough : ltb (length (front ++ ds)) (length ss) ≡ false
      long_enough = ground (arith, length-append front ds, h)

      tail : length (front ++ ds) - length ss ≡ length front
      tail = omega (arith, length-append front ds, h)

  ends_in-EndsWith :
      (path : ℕ) (cs : List ℕ)
      → StringAt m path cs
      → (ends_in m suffix (length ss) path (length cs) ≡ true) ↔ EndsWith cs ss
  unfolding ends_in
  ends_in-EndsWith path cs at = (ends, ended)
    where
      short : length cs < length ss → ends_in m suffix (length ss) path (length cs) ≡ false
      short h = rw (lt→ltb (length cs) (length ss) h) refl

      ended : EndsWith cs ss → ends_in m suffix (length ss) path (length cs) ≡ true
      ended (front, e) =
          subst (λ l. ends_in m suffix (length ss) path (length l) ≡ true) (sym e)
            ((tail_iff path front ss (subst (λ l. StringAt m path l) e at) refl).1 refl)

      ends : ends_in m suffix (length ss) path (length cs) ≡ true → EndsWith cs ss
      ends t = elim (Bool-cases (ltb (length cs) (length ss))) [
        | inr le ↦
            let (front, ds, e, len) = split_last (length ss) cs (ground arith) in
            (
              front,
              e
                  ∙ ap (λ l. front ++ l)
                      ((tail_iff path front ds (subst (λ l. StringAt m path l) e at) len).0
                        (subst (λ l. ends_in m suffix (length ss) path (length l) ≡ true) e t)),
            )
        | inl lt ↦ absurd (true_ne_false (sym t ∙ short (ltb→lt (length cs) (length ss) lt)))
      ]

-- The path of each module is a string that the fuel is enough for.
abbrev pub HasPaths : Mem → ℕ → (LimineFile → List ℕ) → List LimineFile → Type 0
HasPaths m fuel chars modules =
    All (λ f. StringAt m f.path (chars f) × (length (chars f) < fuel)) modules

-- No module ends with the suffix, or the found one is the first that does.
abbrev pub IsFirst : (LimineFile → List ℕ) → List ℕ → List LimineFile → Option LimineFile → Type 0
IsFirst chars ss modules none = All (λ f. ¬ EndsWith (chars f) ss) modules
IsFirst chars ss modules (some g) =
    (before : List LimineFile) × (after : List LimineFile) × (modules ≡ before ++ g ∷ after)
    × EndsWith (chars g) ss
    × All (λ f. ¬ EndsWith (chars f) ss) before

IsFirst-later :
    (chars : LimineFile → List ℕ) (ss : List ℕ) (f : LimineFile) (fs : List LimineFile)
    (r : Option LimineFile)
    → ¬ EndsWith (chars f) ss
    → IsFirst chars ss fs r
    → IsFirst chars ss (f ∷ fs) r
IsFirst-later chars ss f fs none other h = (other, h)
IsFirst-later chars ss f fs (some g) other (before, after, e, ends, h) =
    (f ∷ before, after, ap (λ l. f ∷ l) e, ends, (other, h))

search_modules-IsFirst :
    (fuel : ℕ) (m : Mem) (suffix : ℕ) (chars : LimineFile → List ℕ) (ss : List ℕ)
    (modules : List LimineFile)
    → StringAt m suffix ss
    → HasPaths m fuel chars modules
    → (r : Option LimineFile) × (search_modules fuel m suffix (length ss) modules ≡ some r)
      × IsFirst chars ss modules r
unfolding search_modules
search_modules-IsFirst fuel m suffix chars ss [] at paths = (none, refl, tt)
search_modules-IsFirst fuel m suffix chars ss (f ∷ fs) at ((here, short), paths) =
    let ends = ends_in-EndsWith m suffix at f.path (chars f) here in
    let (r, e, first) = search_modules-IsFirst fuel m suffix chars ss fs at paths in
    rw (string_length-whole fuel m f.path (chars f) here short)
      (elim (Bool-cases (ends_in m suffix (length ss) f.path (length (chars f)))) [
        | inl is_end ↦ (some f, rw is_end refl, ([], fs, refl, ends.0 is_end, tt))
        | inr other ↦ (
          r,
          rw other e,
          IsFirst-later chars ss f fs r (λ w. true_ne_false (sym (ends.1 w) ∙ other)) first,
        )
      ])

-- `find_module` returns the first module whose path ends with the suffix, and NULL if none does. The
-- suffix and the paths are strings that the fuel is enough for.
pub find_module-IsFirst :
    (fuel : ℕ) (m : Mem) (suffix : ℕ) (chars : LimineFile → List ℕ) (ss : List ℕ)
    (modules : List LimineFile)
    → StringAt m suffix ss
    → length ss < fuel
    → HasPaths m fuel chars modules
    → (r : Option LimineFile) × (find_module fuel m (some modules) suffix ≡ some r)
      × IsFirst chars ss modules r
unfolding find_module
find_module-IsFirst fuel m suffix chars ss modules at short paths =
    rw (string_length-whole fuel m suffix ss at short)
      (search_modules-IsFirst fuel m suffix chars ss modules at paths)
