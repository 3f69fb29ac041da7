-- ===== src/Proxy/Attempts.antt =====
-- How often a request is tried: `run_chat` in
-- crates/router-server/src/proxy.rs.
use Prim.Native.String.{String}
use rapidrouter.Prelude.{ℕ, ◌+◌, ◌≤◌, ◌≡◌, true, is_some}
use rapidrouter.Proxy.{Pool}
use rapidrouter.Proxy.Dispatch.{Turn, Exit}

-- No more than `n` attempts were added; and where the loop goes on, an error is known.
abbrev Counts : ℕ → Turn → Turn × Exit → Type 0
Counts n before (turn, exit) =
    (turn.attempts ≤ before.attempts + n) × (exit ≡ Exit.next → is_some turn.last_error ≡ true)
