-- ===== src/Sync/Clock.antt =====
-- `local_mtime` of src/sync.cpp: the time of a file, from the clock of the file system to that of the
-- system.
use adbcpp.Base.{
  refl, true, ltb, ap, ◌∙◌, ◌≤◌, ℕ, suc, ◌+◌, ◌*◌, ◌/◌, ◌%◌, ◌-◌, ◌<◌, ◌≡◌, ◌⊎◌, inl, inr, Option,
  none, some, arith, leb, if◌then◌else◌,
}

pub data ℤ : Type 0 where
  pos negsuc : ℕ → ℤ

abbrev pub pos_part : ℤ → ℕ
pos_part (pos n) = n
pos_part (negsuc n) = 0

abbrev pub neg_part : ℤ → ℕ
neg_part (pos n) = 0
neg_part (negsuc n) = suc n

-- The difference of two numbers.
abbrev pub sub_ℕ : ℕ → ℕ → ℤ
sub_ℕ m n = if leb n m then pos (m - n) else negsuc (n - m - 1)

infixl 65 ◌+ℤ◌
infixl 65 ◌-ℤ◌
unfoldable pub ◌+ℤ◌ : ℤ → ℤ → ℤ
a +ℤ b = sub_ℕ (pos_part a + pos_part b) (neg_part a + neg_part b)

unfoldable pub ◌-ℤ◌ : ℤ → ℤ → ℤ
a -ℤ b = sub_ℕ (pos_part a + neg_part b) (neg_part a + pos_part b)

-- `static_cast<std::uint32_t>`.
unfoldable pub as_u32 : ℤ → ℕ
as_u32 (pos n) = n % 4294967296
as_u32 (negsuc n) = 4294967295 - n % 4294967296

-- The signed number of a 64-bit word.
abbrev pub wrapped : ℕ → ℤ
wrapped n = if ltb n 9223372036854775808 then pos n else sub_ℕ n 18446744073709551616

-- A 64-bit signed number: the residue of 2^64 next to zero. In the source an overflow is not defined.
unfoldable pub as_i64 : ℤ → ℤ
as_i64 (pos n) = wrapped (n % 18446744073709551616)
as_i64 (negsuc n) = wrapped (18446744073709551615 - n % 18446744073709551616)

-- The ticks of a second, which are nanoseconds in both clocks of libstdc++.
abbrev pub second : ℕ
second = 1000000000

-- `duration_cast` to seconds, which rounds towards zero.
unfoldable pub in_seconds : ℤ → ℤ
in_seconds t = sub_ℕ (pos_part t / second) (neg_part t / second)

-- A time point of the clock of the system that is so many seconds behind its epoch.
unfoldable pub time_point : ℤ → ℤ
time_point t = as_i64 (sub_ℕ (pos_part t * second) (neg_part t * second))

-- What the clocks say: `last_write_time` of the file, where it succeeds, on the file clock, the two
-- clocks in ticks, and `std::time`.
pub record Clocks : Type 0 where
  pub file_time : Option ℤ
  pub file_now : ℤ
  pub system_now : ℤ
  pub time : ℤ

unfoldable pub local_mtime : Clocks → ℤ
local_mtime clocks = elim clocks.file_time [
  | none ↦ clocks.time
  | some file_time ↦
      let offset = in_seconds clocks.system_now -ℤ in_seconds clocks.file_now in
      in_seconds (time_point (in_seconds file_time +ℤ offset))
]

sub_ℕ_parts : (m n : ℕ) → pos_part (sub_ℕ m n) + n ≡ neg_part (sub_ℕ m n) + m
sub_ℕ_parts m n = ground arith

+ℤ_parts :
    (a b : ℤ)
    → pos_part (a +ℤ b) + (neg_part a + neg_part b) ≡ neg_part (a +ℤ b) + (pos_part a + pos_part b)
unfolding ◌+ℤ◌
+ℤ_parts a b = sub_ℕ_parts (pos_part a + pos_part b) (neg_part a + neg_part b)

-ℤ_parts :
    (a b : ℤ)
    → pos_part (a -ℤ b) + (neg_part a + pos_part b) ≡ neg_part (a -ℤ b) + (pos_part a + neg_part b)
unfolding ◌-ℤ◌
-ℤ_parts a b = sub_ℕ_parts (pos_part a + neg_part b) (neg_part a + pos_part b)

in_seconds_parts :
    (t : ℤ)
    → pos_part (in_seconds t) + neg_part t / second ≡ neg_part (in_seconds t) + pos_part t / second
unfolding in_seconds
in_seconds_parts t = sub_ℕ_parts (pos_part t / second) (neg_part t / second)

-- A number of seconds and a number of ticks that are less than so many seconds apart.
abbrev pub IsNear : ℕ → ℤ → ℤ → Type 0
IsNear seconds s t =
    (pos_part s * second + neg_part t < pos_part t + neg_part s * second + seconds * second)
    × (pos_part t + neg_part s * second < pos_part s * second + neg_part t + seconds * second)

abbrev pub HaveOneSign : ℤ → ℤ → Type 0
HaveOneSign a b = ((neg_part a ≡ 0) × (neg_part b ≡ 0)) ⊎ ((pos_part a ≡ 0) × (pos_part b ≡ 0))

module _ (file_time system file : ℤ) where
  -- The time of the system less the age of the file, in ticks, and what stands for it in seconds.
  abbrev pub aged : ℤ
  aged = file_time +ℤ (system -ℤ file)

  abbrev shifted : ℤ
  shifted = in_seconds file_time +ℤ (in_seconds system -ℤ in_seconds file)

  shifted-IsNear : neg_part system ≡ 0 → HaveOneSign file_time file → IsNear 2 shifted aged
  shifted-IsNear past same =
      let a = in_seconds_parts file_time in
      let b = in_seconds_parts system in
      let c = in_seconds_parts file in
      let d = -ℤ_parts (in_seconds system) (in_seconds file) in
      let f = +ℤ_parts (in_seconds file_time) (in_seconds system -ℤ in_seconds file) in
      let g = -ℤ_parts system file in
      let h = +ℤ_parts file_time (system -ℤ file) in
      elim same [
        | inl (p, q) ↦ (omega arith, omega arith)
        | inr (p, q) ↦ (omega arith, omega arith)
      ]

-- The number of seconds behind the epoch that a time point of a 32-bit number of seconds stands for.
sub_ℕ-0 : (k : ℕ) → sub_ℕ k 0 ≡ pos k
sub_ℕ-0 k = let e : leb 0 k ≡ true = ground arith in rw (e) (ap pos (omega arith))

as_i64-small : (k : ℕ) → k < 9223372036854775808 → as_i64 (pos k) ≡ pos k
unfolding as_i64
as_i64-small k h =
    let e : k % 18446744073709551616 ≡ k = omega arith in
    let t : ltb k 9223372036854775808 ≡ true = ground arith in rw (e) (rw (t) (refl))

time_point-ticks : (n : ℕ) → n < 4294967296 → time_point (pos n) ≡ pos (n * second)
unfolding time_point
time_point-ticks n h = ap as_i64 (sub_ℕ-0 (n * second)) ∙ as_i64-small (n * second) (omega arith)

in_seconds-ticks : (n : ℕ) → in_seconds (pos (n * second)) ≡ pos n
unfolding in_seconds
in_seconds-ticks n = let e : n * second / second ≡ n = omega arith in rw (e) (sub_ℕ-0 n)

small_word : (n : ℕ) → n < 4294967296 → n % 4294967296 ≡ n
small_word n h = omega arith

time_point-seconds : (n : ℕ) → n < 4294967296 → as_u32 (in_seconds (time_point (pos n))) ≡ n
unfolding as_u32
time_point-seconds n h =
    ap (λ t. as_u32 (in_seconds t)) (time_point-ticks n h)
    ∙ ap as_u32 (in_seconds-ticks n)
    ∙ small_word n h

-- A number of seconds that is near a time of the next 2^32 seconds.
IsNear-positive :
    (s t : ℤ)
    → IsNear 2 s t
    → neg_part t ≡ 0
    → 2 * second ≤ pos_part t
    → pos_part t + 2 * second ≤ 4294967296 * second
    → (s ≡ pos (pos_part s)) × (pos_part s < 4294967296)
IsNear-positive (pos n) t (near, far) p low high = (refl, omega arith)
IsNear-positive (negsuc n) t (near, far) p low high = absurd (omega arith)

-- Where the clock of the system is past its epoch and the file was written on the same side of the
-- epoch of the file clock as now, and the time of the system less the age of the file is one that 32
-- bits of seconds hold, two seconds off either end: the 32-bit time that is sent is less than two
-- seconds from it, whatever the epoch of the file clock.
pub local_mtime-sent :
    (clocks : Clocks) (file_time : ℤ)
    → clocks.file_time ≡ some file_time
    → neg_part clocks.system_now ≡ 0
    → HaveOneSign file_time clocks.file_now
    → neg_part (aged file_time clocks.system_now clocks.file_now) ≡ 0
    → 2 * second ≤ pos_part (aged file_time clocks.system_now clocks.file_now)
    → pos_part (aged file_time clocks.system_now clocks.file_now) + 2 * second ≤ 4294967296 * second
    → (as_u32 (local_mtime clocks) * second
        < pos_part (aged file_time clocks.system_now clocks.file_now) + 2 * second)
      × (pos_part (aged file_time clocks.system_now clocks.file_now)
          < as_u32 (local_mtime clocks) * second + 2 * second)
unfolding local_mtime
local_mtime-sent clocks file_time e past same positive low high =
    let s = shifted file_time clocks.system_now clocks.file_now in
    let t = aged file_time clocks.system_now clocks.file_now in
    let near = shifted-IsNear file_time clocks.system_now clocks.file_now past same in
    let (whole, small) = IsNear-positive s t near positive low high in
    let sent : as_u32 (local_mtime clocks) ≡ pos_part s =
      rw (local_mtime, e)
        (ap (λ x. as_u32 (in_seconds (time_point x))) whole
          ∙ time_point-seconds (pos_part s) small) in
    let none_below : neg_part s ≡ 0 = ap neg_part whole in rw sent (omega arith, omega arith)
