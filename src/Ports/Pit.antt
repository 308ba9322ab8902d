-- ===== src/Ports/Pit.antt =====
-- pit.c: the interval timer.
use hobby_os_kernel.Common.{
  ℕ, ◌+◌, ◌*◌, ◌/◌, ◌%◌, ◌≤◌, ◌<◌, ◌≡◌, refl, ◌⊎◌, inl, inr, dec_lt, bit_and, bit_and-low,
  if◌then◌else◌, ◌==◌, ltb, ◌>>◌, arith,
}
use native.Mathlib.Nat.{le-div_iff_mul-le, div-le_of_le-mul, mul-div-le, lt-mul-div-succ}
use hobby_os_kernel.Ports.{Ports}

-- `PIT_BASE_FREQUENCY`
abbrev pub pit_base_frequency : ℕ
pit_base_frequency = 1193182

abbrev pub pit_channel0_data : ℕ
pit_channel0_data = 0x40

abbrev pub pit_command : ℕ
pit_command = 0x43

-- `PIT_CMD_CH0_MODE2`
abbrev pub pit_cmd_ch0_mode2 : ℕ
pit_cmd_ch0_mode2 = 0x34

abbrev pub at_least_19 : ℕ → ℕ
at_least_19 frequency_hz = if ltb frequency_hz 19 then 19 else frequency_hz

pub reload_for : ℕ → ℕ
reload_for frequency_hz =
    let reload = pit_base_frequency / at_least_19 frequency_hz in
    let reload = if ltb 65535 reload then 65535 else reload in if reload == 0 then 1 else reload

quotient_fits :
    (f : ℕ)
    → 19 ≤ f
    → f ≤ pit_base_frequency
    → (1 ≤ pit_base_frequency / f) × (pit_base_frequency / f ≤ 65535)
quotient_fits f low high =
    ((le-div_iff_mul-le (omega arith)).1 (omega arith), div-le_of_le-mul f (omega arith))

-- The count for a frequency that the timer can make.
reload-quotient : (f : ℕ) → 19 ≤ f → f ≤ pit_base_frequency → reload_for f ≡ pit_base_frequency / f
unfolding reload_for
reload-quotient f low high = let (least, most) = quotient_fits f low high in ground arith

reload_small : (f : ℕ) → (1 ≤ reload_for f) × (reload_for f < 65536)
unfolding reload_for
reload_small f = ground arith

quotient_bounds : (n f : ℕ) → 0 < f → (f * (n / f) ≤ n) × (n < f * (n / f + 1))
quotient_bounds n f h = (mul-div-le n f, lt-mul-div-succ n h)

low_byte : (r : ℕ) → bit_and r 0xFF ≡ r % 256
low_byte r = bit_and-low 8 r

module _ (io : Ports) where
  open io use {Device, outb}

  -- The message that ends it prints the frequency.
  pub pit_init : ℕ → Device → Device
  pit_init frequency_hz d =
      let reload = reload_for frequency_hz in
      let d = outb pit_command pit_cmd_ch0_mode2 d in
      let d = outb pit_channel0_data (bit_and reload 0xFF % 256) d in
      outb pit_channel0_data (bit_and (reload >> 8) 0xFF % 256) d

  -- `pit_init` sends the command and the two bytes, low and high, of a count that fits the timer. For a
  -- frequency of 19 Hz to the timer's own it is the greatest count at which the timer is no slower.
  pub pit_init-rate :
      (frequency_hz : ℕ) (d : Device)
      → (count : ℕ) × (low : ℕ) × (high : ℕ) × (pit_init frequency_hz d
          ≡ outb pit_channel0_data high (outb pit_channel0_data low (outb pit_command 0x34 d)))
        × (low < 256)
        × (high < 256)
        × (low + 256 * high ≡ count)
        × (1 ≤ count)
        × ((frequency_hz < 19)
            ⊎ ((pit_base_frequency < frequency_hz)
                ⊎ ((frequency_hz * count ≤ pit_base_frequency)
                    × (pit_base_frequency < frequency_hz * (count + 1)))))
  unfolding pit_init
  pit_init-rate f d =
      let (some_count, fits) = reload_small f in
      let low = low_byte (reload_for f) in
      let high = low_byte (reload_for f >> 8) in
      (
        reload_for f,
        bit_and (reload_for f) 0xFF % 256,
        bit_and (reload_for f >> 8) 0xFF % 256,
        refl,
        omega arith,
        omega arith,
        omega (arith, low, high),
        some_count,
        by_range (dec_lt f 19) (dec_lt pit_base_frequency f),
      )
    where
      by_range :
          Dec (f < 19)
          → Dec (pit_base_frequency < f)
          → (f < 19)
            ⊎ ((pit_base_frequency < f)
                ⊎ ((f * reload_for f ≤ pit_base_frequency)
                    × (pit_base_frequency < f * (reload_for f + 1))))
      by_range (yes slow) other = inl slow
      by_range (no least) (yes fast) = inr (inl fast)
      by_range (no least) (no most) = inr (
          inr (
            rw (reload-quotient f (omega arith) (omega arith))
              (quotient_bounds pit_base_frequency f (omega arith))))
