-- ===== src/Frames/Addresses.antt =====
-- Pages and physical addresses.
use hobby_os_kernel.Common.{ℕ, ◌+◌, ◌*◌, ◌^◌, ◌<◌, ◌≡◌, arith}
use hobby_os_kernel.Frames.{page2pa, pa2page}

pub page2pa-small : (x : ℕ) → x < 2 ^ 52 → page2pa x ≡ x * 4096
unfolding page2pa
page2pa-small x h = omega arith

-- A page of a 64-bit address space is found again from any address inside it.
pub pa2page-page2pa : (x i : ℕ) → x < 2 ^ 52 → i < 4096 → pa2page (page2pa x + i) ≡ x
unfolding pa2page page2pa
pa2page-page2pa x i h k = omega arith
