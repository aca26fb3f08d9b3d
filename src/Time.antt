-- ===== src/Time.antt =====
-- Instants and durations: numbers of nanoseconds, 0 for Go's zero time. A database column holds the
-- whole seconds that `Time.Unix` gives.
use byos.Prelude.{ℕ, ◌*◌, ◌/◌, Option, none, some}

abbrev pub second : ℕ
second = 1000000000

abbrev pub minute : ℕ
minute = 60000000000

-- `t.Unix()`.
abbrev pub unix : ℕ → ℕ
unix t = t / 1000000000

-- `time.Unix(s, 0)`.
abbrev pub of_unix : ℕ → ℕ
of_unix s = s * 1000000000

-- `nullableUnix` and `timePtr` of internal/store/accounts.go.
abbrev pub nullable_unix : Option ℕ → Option ℕ
nullable_unix none = none
nullable_unix (some t) = some (unix t)

abbrev pub time_ptr : Option ℕ → Option ℕ
time_ptr none = none
time_ptr (some s) = some (of_unix s)
