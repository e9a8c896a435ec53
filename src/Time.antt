-- ===== src/Time.antt =====
-- Go's package time, as far as the program uses it. An instant counts nanoseconds from the zero
-- `time.Time`; a `time.Duration` is a signed 64-bit count of nanoseconds.
use cloudtap.Prelude.{ℕ, ◌-◌, min, leb, if◌then◌else◌}
use cloudtap.Prelude.Int.{ℤ, pos, negsuc}

abbrev pub Instant : Type 0
Instant = ℕ

abbrev pub Duration : Type 0
Duration = ℤ

abbrev pub zero_time : Instant
zero_time = 0

abbrev pub second : ℕ
second = 1000000000

abbrev pub max_duration : ℕ
max_duration = 9223372036854775807

-- now.Sub(t), which saturates at both ends of the range
unfoldable pub since : Instant → Instant → Duration
since now t =
    if leb t now then pos (min (now - t) max_duration) else negsuc (min (t - now - 1) max_duration)
