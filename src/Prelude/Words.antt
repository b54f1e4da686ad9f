-- ===== src/Prelude/Words.antt =====
-- Machine integers as native numbers: u64 additions that wrap or saturate, casts.
use Prim.Native.Nat.{ℕ, ◌+◌, ◌*◌, ◌%◌}
use allegro.Prelude.Tests.{ltb, leb, if◌then◌else◌}

abbrev pub u64_max : ℕ
u64_max = 18446744073709551615

abbrev pub u16_max : ℕ
u16_max = 65535

-- `as u64`, and the wrap of a `fetch_add`.
abbrev pub wrap_u64 : ℕ → ℕ
wrap_u64 n = n % 18446744073709551616

-- `as u8`, `as u16`.
abbrev pub wrap_u8 : ℕ → ℕ
wrap_u8 n = n % 256

abbrev pub wrap_u16 : ℕ → ℕ
wrap_u16 n = n % 65536

-- `u64::saturating_add` and `u64::saturating_mul`.
abbrev pub saturating_add : ℕ → ℕ → ℕ
saturating_add a b = if leb (a + b) u64_max then a + b else u64_max

abbrev pub saturating_mul : ℕ → ℕ → ℕ
saturating_mul a b = if leb (a * b) u64_max then a * b else u64_max

abbrev pub max_u64 : ℕ → ℕ → ℕ
max_u64 a b = if ltb a b then b else a
