-- ===== src/Breaker/Word.antt =====
-- crates/router-core/src/breaker.rs, `pack` and `unpack`: `(since_ms << 2) | state` in one u64. The
-- shift drops the bits past 64 and leaves the two low bits 0, so the `|` with a state is a sum.
use rapidrouter.Prelude.{ℕ, ◌+◌, ◌*◌, ◌/◌, ◌%◌, ◌<◌, ◌≡◌, u64_mod, arith}

abbrev pub closed_state : ℕ
closed_state = 0

abbrev pub open_state : ℕ
open_state = 1

abbrev pub half_open_state : ℕ
half_open_state = 2

-- Timestamps below this survive the shift.
abbrev pub time_limit : ℕ
time_limit = 4611686018427387904

unfoldable pub pack : ℕ → ℕ → ℕ
pack since state = (since * 4) % u64_mod + state

abbrev pub since_of : ℕ → ℕ
since_of word = word / 4

abbrev pub state_of : ℕ → ℕ
state_of word = word % 4

pub unpack-pack :
    (since state : ℕ)
    → since < time_limit
    → state < 4
    → (since_of (pack since state) ≡ since) × (state_of (pack since state) ≡ state)
unfolding pack
unpack-pack since state h k = omega arith

-- Only the state survives a timestamp past the limit; the packed word still fits in 64 bits.
pub pack_bounds :
    (since state : ℕ)
    → state < 4
    → (pack since state < u64_mod) × (state_of (pack since state) ≡ state)
unfolding pack
pack_bounds since state h = omega arith
