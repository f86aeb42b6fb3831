-- ===== src/Raft/Clock.antt =====
-- What the program uses of package time: instants are nanoseconds since the zero time, and
-- durations are int64 nanoseconds.
use raft_based_mysql_cluster.Prelude.{ℕ, ◌-◌, ◌^◌, ℤ, pos, negsuc, leb, if◌then◌else◌}
use Prim.Native.Nat.{min}

abbrev pub Time : Type 0
Time = ℕ

-- time.Time{}
abbrev pub zero_time : Time
zero_time = 0

abbrev pub millisecond : ℕ
millisecond = 1000000

-- time.Since(t) at the instant `now`; the difference stays in range.
abbrev pub since : Time → Time → ℤ
since now t =
    if leb t now then pos (min (now - t) (2 ^ 63 - 1)) else negsuc (min (t - now - 1) (2 ^ 63 - 1))
