-- ===== src/Spinlock/Guards.antt =====
-- spinlock.c: what the lock guarantees to the processors that use it.
use hobby_os_kernel.Common.{
  ℕ, ◌-◌, ◌≡◌, refl, sym, ap, ◌∙◌, ◌≢◌, Bool, true, false, Option, none, some, ◌⊎◌, inl, inr,
  ==_self, ==_ne, fun_ext, subst, ap₂, arith, ℕ_discrete, if◌then◌else◌, ◌==◌, ◌&&◌,
}
use hobby_os_kernel.Frames.{is_some}
use hobby_os_kernel.Spinlock.{
  Place, outside, spinning, holding, released, Cpu, System, spinlock_init, interrupts_on,
  save_and_disable_interrupts, restore_interrupts, try_acquire, next_at, set_cpu, advance,
  is_outside, is_holding,
}

-- A processor goes on with the two functions, or other code of it sets its flags.
pub data Step (s : System) : System → Type 0 where
  go : (i : ℕ) → Step s (advance i s)
  other_code :
      (i flags : ℕ)
      → is_outside (s.cpu i).place ≡ true
      → Step s (record s { cpu = set_cpu s.cpu i (record { rflags = flags; place = outside }) })

-- The lock is made while every processor is outside its functions.
pub data Reach : System → Type 0 where
  start : (s : System) → ((i : ℕ) → is_outside (s.cpu i).place ≡ true) → Reach (spinlock_init s)
  later : {s t : System} → Reach s → Step s t → Reach t

abbrev pub holds : System → ℕ → Bool
holds s i = is_holding (s.cpu i).place

abbrev pub owns : Option ℕ → ℕ → Bool
owns none i = false
owns (some o) i = i == o

-- The lock is 1 while the processor `owner` holds it, and 0 while none does; a processor on its way
-- through the two functions takes no interrupt.
record Guarded (s : System) (owner : Option ℕ) : Type 0 where
  lock : s.locked ≡ (if is_some owner then 1 else 0)
  holder : (i : ℕ) → holds s i ≡ owns owner i
  quiet : (i : ℕ) → is_outside (s.cpu i).place ≡ false → interrupts_on (s.cpu i).rflags ≡ false

interrupts_off : (c : Cpu) → interrupts_on (save_and_disable_interrupts c).rflags ≡ false
unfolding save_and_disable_interrupts
interrupts_off c = ground arith

-- A step of processor `i` that leaves the lock's holders alone.
other_step :
    {s : System} {owner : Option ℕ} (i : ℕ) (c : Cpu)
    → Guarded s owner
    → is_holding c.place ≡ holds s i
    → (is_outside c.place ≡ false → interrupts_on c.rflags ≡ false)
    → Guarded (record s { cpu = set_cpu s.cpu i c }) owner
other_step {s} i c g same calm = record {
  lock = g.lock;
  holder = λ j. ground (arith, g.holder j, same);
  quiet = λ j h. ground (arith, g.quiet j, calm);
}

-- What `advance` makes of a system whose processor `i` stands at `p`.
abbrev moved : Place → ℕ → System → System
moved p i s = record {
  locked = (next_at p s.locked (s.cpu i)).0;
  cpu = set_cpu s.cpu i (next_at p s.locked (s.cpu i)).1;
}

module _ {s : System} {owner : Option ℕ} (i : ℕ) (g : Guarded s owner) where
  -- The first to find the lock free gets it; the others spin on.
  spin_step :
      (flags : ℕ)
      → (s.cpu i).place ≡ spinning flags
      → (o : Option ℕ) × Guarded (moved (spinning flags) i s) o
  unfolding next_at try_acquire
  spin_step flags e =
      elim owner as (λ o. Guarded s o → (o' : Option ℕ) × Guarded (moved (spinning flags) i s) o') [
        | none ↦ λ g. (
          some i,
          record {
            lock = refl;
            holder = λ j. ground (arith, g.holder j, g.lock);
            quiet = λ j h. ground (arith, g.quiet j, g.quiet i, g.lock, e);
          },
        )
        | some o ↦ λ g. (
          some o,
          record {
            lock = refl;
            holder = λ j. ground (arith, g.holder j, g.lock, e);
            quiet = λ j h. ground (arith, g.quiet j, g.quiet i, g.lock, e);
          },
        )
      ]
        g

  holding_step :
      (flags : ℕ)
      → (s.cpu i).place ≡ holding flags
      → (o : Option ℕ) × Guarded (moved (holding flags) i s) o
  unfolding next_at
  holding_step flags e = (
    none,
    record {
      lock = refl;
      holder = λ j. ground (arith, g.holder j, g.holder i, e);
      quiet = λ j h. ground (arith, g.quiet j, g.quiet i, e);
    },
  )

  place_step : (p : Place) → (s.cpu i).place ≡ p → (o : Option ℕ) × Guarded (moved p i s) o
  unfolding next_at restore_interrupts save_and_disable_interrupts
  place_step outside e = (
    owner,
    other_step i (save_and_disable_interrupts (s.cpu i)) g (ground (arith, e))
        (λ h. interrupts_off (s.cpu i)),
  )
  place_step (spinning flags) e = spin_step flags e
  place_step (holding flags) e = holding_step flags e
  place_step (released flags) e = (
    owner,
    other_step i (restore_interrupts flags (s.cpu i)) g (ground (arith, e)) (λ h. absurd (cc h)),
  )

not_holding : (p : Place) → is_outside p ≡ true → is_holding p ≡ false
not_holding (holding flags) h = absurd (cc h)
not_holding _ h = refl

Step-Guarded :
    {s t : System} {owner : Option ℕ} → Step s t → Guarded s owner → (o : Option ℕ) × Guarded t o
unfolding advance
Step-Guarded {s} (go i) g = place_step i g (s.cpu i).place refl
Step-Guarded {s} {t} {owner} (other_code i flags out) g = (
  owner,
  other_step i (record { rflags = flags; place = outside }) g
      (sym (not_holding (s.cpu i).place out)) (λ h. absurd (cc h)),
)

Reach-Guarded : {s : System} → Reach s → (o : Option ℕ) × Guarded s o
unfolding spinlock_init
Reach-Guarded (start s out) = (
  none,
  record {
    lock = refl;
    holder = λ i. not_holding (s.cpu i).place (out i);
    quiet = λ i h. absurd (cc (out i, h));
  },
)
Reach-Guarded (later r st) = let (o, g) = Reach-Guarded r in Step-Guarded st g

-- Of processors that use the lock in any interleaving, other code of theirs included, one at most
-- holds it: it is 1 while there is such an owner and 0 otherwise, and the owner takes no interrupt.
pub Reach-guards :
    {s : System}
    → Reach s
    → (owner : Option ℕ) × ((i : ℕ) → holds s i ≡ owns owner i)
      × (s.locked ≡ (if is_some owner then 1 else 0))
      × ((i : ℕ) → holds s i && interrupts_on (s.cpu i).rflags ≡ false)
Reach-guards {s} r =
    let (o, g) = Reach-Guarded r in (o, g.holder, g.lock, λ i. calm g i (s.cpu i).place refl)
  where
    calm :
        {o : Option ℕ}
        → Guarded s o
        → (i : ℕ) (p : Place) → (s.cpu i).place ≡ p
        → is_holding (s.cpu i).place && interrupts_on (s.cpu i).rflags ≡ false
    calm g i (holding flags) e = ground (arith, g.quiet i, e)
    calm g i outside e = rw e refl
    calm g i (spinning flags) e = rw e refl
    calm g i (released flags) e = rw e refl

-- A processor that spins gets the lock by its next instruction, or another holds the lock.
pub Reach-spins :
    {s : System} (i flags : ℕ)
    → Reach s
    → (s.cpu i).place ≡ spinning flags
    → (holds (advance i s) i ≡ true) ⊎ ((j : ℕ) × (j ≢ i) × (holds s j ≡ true))
unfolding advance next_at try_acquire
Reach-spins {s} i flags r e = let (o, g) = Reach-Guarded r in by_owner o g
  where
    by_owner :
        (o : Option ℕ)
        → Guarded s o
        → (holds (advance i s) i ≡ true) ⊎ ((j : ℕ) × (j ≢ i) × (holds s j ≡ true))
    by_owner none g = inl (rw e (ground (arith, g.lock)))
    by_owner (some o) g = inr (o, (λ same. ground (arith, g.holder i, e)), g.holder o ∙ ==_self o)

-- A step depends on the processor that makes it, and changes only that one and the lock.
advance_set :
    (l : ℕ) (cpu : ℕ → Cpu) (i : ℕ) (c : Cpu)
    → advance i (record { locked = l; cpu = set_cpu cpu i c })
      ≡ record { locked = (next_at c.place l c).0; cpu = set_cpu cpu i (next_at c.place l c).1 }
unfolding advance
advance_set l cpu i c =
    rw (==_self i)
      (ap (λ f. record { locked = (next_at c.place l c).0; cpu = f }) (fun_ext λ j. ground arith))

set_same : (cpu : ℕ → Cpu) (i : ℕ) → set_cpu cpu i (cpu i) ≡ cpu
set_same cpu i = fun_ext λ j. elim (ℕ_discrete j i) [
  | yes e ↦ rw e (rw (==_self i) refl)
  | no ne ↦ rw (==_ne j i ne) refl
]

four_steps :
    (cpu : ℕ → Cpu) (i flags : ℕ)
    → let s : System = record {
      locked = 0;
      cpu = set_cpu cpu i (record { rflags = flags; place = outside });
    } in
      advance i (advance i (advance i (advance i s))) ≡ s
unfolding next_at try_acquire save_and_disable_interrupts restore_interrupts
four_steps cpu i flags = rw (advance_set 0 cpu i (record { rflags = flags; place = outside })) (
    rw
      (advance_set 0 cpu i (record {
        rflags = (if interrupts_on flags then flags - 512 else flags);
        place = spinning flags;
      }))
      (rw
        (advance_set 1 cpu i (record {
          rflags = (if interrupts_on flags then flags - 512 else flags);
          place = holding flags;
        }))
        (advance_set 0 cpu i (record {
          rflags = (if interrupts_on flags then flags - 512 else flags);
          place = released flags;
        }))))

-- Where the lock is free, `spinlock_acquire` and `spinlock_release` with what it returned leave the
-- lock, the flags and every other processor as they were.
pub release-acquire :
    (s : System) (i : ℕ)
    → s.locked ≡ 0
    → is_outside (s.cpu i).place ≡ true
    → advance i (advance i (advance i (advance i s))) ≡ s
release-acquire s i free out =
    subst (λ t. advance i (advance i (advance i (advance i t))) ≡ t) same
      (four_steps s.cpu i (s.cpu i).rflags)
  where
    at_rest :
        (c : Cpu)
        → is_outside c.place ≡ true
        → (p : Place) → c.place ≡ p
        → ◌≡◌ {A = Cpu} (record { rflags = c.rflags; place = outside }) c
    at_rest c out outside e = ap (λ p. record { rflags = c.rflags; place = p }) (sym e)
    at_rest c out (spinning f) e = absurd (cc (subst (λ p. is_outside p ≡ true) e out))
    at_rest c out (holding f) e = absurd (cc (subst (λ p. is_outside p ≡ true) e out))
    at_rest c out (released f) e = absurd (cc (subst (λ p. is_outside p ≡ true) e out))

    same :
        ◌≡◌ {A = System}
          (record {
            locked = 0;
            cpu = set_cpu s.cpu i (record { rflags = (s.cpu i).rflags; place = outside });
          })
          s
    same =
        ap₂ (λ l f. record { locked = l; cpu = f }) (sym free)
          (ap (set_cpu s.cpu i) (at_rest (s.cpu i) out (s.cpu i).place refl) ∙ set_same s.cpu i)
