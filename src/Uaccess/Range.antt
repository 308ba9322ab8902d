-- ===== src/Uaccess/Range.antt =====
-- The loop over the pages of a range.
use hobby_os_kernel.Common.{
  ℕ, zero, suc, ◌+◌, ◌*◌, ◌/◌, ◌%◌, ◌^◌, ◌≤◌, ◌<◌, ◌≡◌, refl, sym, ap, ◌∙◌, ◌↔◌, Bool, true, false,
  not, ◌&&◌, ◌||◌, Option, none, some, arith, ltb, Bool-cases, inl, inr, ltb→lt, dec_lt, [], ◌∷◌,
}
use hobby_os_kernel.Word.{u64, page_size}
use hobby_os_kernel.Memory.{Mem, load64}
use hobby_os_kernel.Frames.{Ram}
use hobby_os_kernel.Paging.Entry.{
  present, writable, user_accessible, pml4_index, pdpt_index, pd_index, pt_index,
}
use hobby_os_kernel.Paging.Fields.{index-fields}
use hobby_os_kernel.Paging.Walk.{vmm_walk, entry_at}
use hobby_os_kernel.Paging.Walk.Lookup.{leaf_slot, vmm_walk-lookup, bind_opt, resolve}
use hobby_os_kernel.Uaccess.{entry_ok, check_pages}

-- The page of `va` is mapped for user code, and for writing if that is asked.
abbrev pub allows : Mem → Bool → ℕ → Bool
allows m need_write pte =
    present (load64 m pte)
    && (user_accessible (load64 m pte) && (not need_write || writable (load64 m pte)))

abbrev pub slot_ok : Mem → Bool → Option ℕ → Bool
slot_ok m need_write none = false
slot_ok m need_write (some pte) = allows m need_write pte

unfoldable pub page_ok : Mem → ℕ → Bool → ℕ → Bool
page_ok m pml4 need_write va = slot_ok m need_write (leaf_slot m pml4 va)

entry_ok-slot :
    (need_write : Bool) (s : Ram) (o : Option ℕ)
    → entry_ok need_write (o, s) ≡ slot_ok s.bytes need_write o
unfolding entry_ok
entry_ok-slot need_write s none = refl
entry_ok-slot need_write s (some pte) = ground arith

pub entry_ok-page :
    (pml4 va : ℕ) (need_write : Bool) (s : Ram)
    → entry_ok need_write (vmm_walk pml4 va false s) ≡ page_ok s.bytes pml4 need_write va
unfolding page_ok
entry_ok-page pml4 va need_write s =
    rw (vmm_walk-lookup pml4 va s) (entry_ok-slot need_write s (leaf_slot s.bytes pml4 va))

-- Addresses of one page have the same entry.
pub page_ok-page :
    (m : Mem) (pml4 : ℕ) (need_write : Bool) (a b : ℕ)
    → a / 4096 ≡ b / 4096
    → page_ok m pml4 need_write a ≡ page_ok m pml4 need_write b
unfolding page_ok
page_ok-page m pml4 need_write a b e = ap (slot_ok m need_write) same_slot
  where
    same :
        (pml4_index a ≡ pml4_index b)
        × (pdpt_index a ≡ pdpt_index b)
        × (pd_index a ≡ pd_index b)
        × (pt_index a ≡ pt_index b)
    same = omega (arith, index-fields a, index-fields b)

    same_slot : leaf_slot m pml4 a ≡ leaf_slot m pml4 b
    same_slot = λ i.
        bind_opt (resolve m pml4 (same.0 i ∷ same.1 i ∷ same.2 i ∷ []))
          λ pt. some (entry_at pt (same.3 i))

-- Every page that holds an address from `va` on, below `stop`, is mapped as asked.
abbrev pub AllOk : Mem → ℕ → Bool → ℕ → ℕ → Type 0
AllOk m pml4 need_write va stop = (a : ℕ) → va ≤ a → a < stop → page_ok m pml4 need_write a ≡ true

module _ (m : Mem) (pml4 : ℕ) (need_write : Bool) (va stop : ℕ) (al : va % 4096 ≡ 0) where
  AllOk-cons :
      page_ok m pml4 need_write va ≡ true
      → AllOk m pml4 need_write (va + 4096) stop
      → AllOk m pml4 need_write va stop
  AllOk-cons here rest a h k = elim (dec_lt a (va + 4096)) [
    | yes in_page ↦ page_ok-page m pml4 need_write a va (omega arith) ∙ here
    | no after ↦ rest a (omega arith) k
  ]

  AllOk-tail : AllOk m pml4 need_write va stop → AllOk m pml4 need_write (va + 4096) stop
  AllOk-tail all a h k = all a (omega arith) k

-- The loop answers true exactly when every page from `va` to `stop` is mapped as asked.
pub check_pages_iff :
    (fuel pml4 va stop : ℕ) (need_write : Bool) (s : Ram)
    → va % 4096 ≡ 0
    → stop % 4096 ≡ 0
    → stop + 4096 < 2 ^ 64
    → va ≤ stop
    → stop < va + fuel * 4096
    → (check_pages fuel pml4 va stop need_write s ≡ true) ↔ AllOk s.bytes pml4 need_write va stop
unfolding check_pages
check_pages_iff zero pml4 va stop need_write s al al' room le enough = absurd (omega arith)
check_pages_iff (suc fuel) pml4 va stop need_write s al al' room le enough =
    elim (Bool-cases (ltb va stop)) [
      | inr over ↦ rw over ((λ _ a h k. absurd (ground arith)), λ _. refl)
      | inl more ↦ elim (Bool-cases (page_ok s.bytes pml4 need_write va)) [
        | inr bad ↦
            rw (more, entry_ok-page pml4 va need_write s, bad)
              ((λ e. absurd (cc e)), λ all. sym bad ∙ all va (omega arith) (ltb→lt va stop more))
        | inl good ↦
            rw (more, entry_ok-page pml4 va need_write s, good, no_wrap more)
              (let ih =
                  check_pages_iff fuel pml4 (va + 4096) stop need_write s (omega arith) al' room
                    (omega (arith, ltb→lt va stop more)) (omega arith) in
                (
                  (λ e. AllOk-cons s.bytes pml4 need_write va stop al good (ih.0 e)),
                  λ all. ih.1 (AllOk-tail s.bytes pml4 need_write va stop al all),
                ))
      ]
    ]
  where
    no_wrap : ltb va stop ≡ true → u64 (va + page_size) ≡ va + 4096
    no_wrap more = omega (arith, ltb→lt va stop more)
