-- ===== src/Store/Plane.antt =====
-- crates/router-store/src/backend/mod.rs and backend/memory.rs: the document that a backend holds, and the
-- backend in memory. A token is the number that its text spells. The parts that a node's heartbeats are in
-- are in Fleet.
use rapidrouter.Prelude.{ℕ, add64, not, Option, none, some, ltb, ◌==◌, if◌then◌else◌}
use rapidrouter.Store.{StoreState}

pub record Snapshot : Type 0 where
  pub state : StoreState
  pub version : ℕ
  pub token : Option ℕ

-- The texts of the errors are not modelled.
pub data ControlPlaneError : Type 0 where
  conflict : (expected actual : ℕ) → ControlPlaneError
  unavailable : ControlPlaneError
  fault : ControlPlaneError
  unsupported : ControlPlaneError

-- `Result<T, ControlPlaneError>`.
pub data Answer (T : Type 0) : Type 0 where
  failed : ControlPlaneError → Answer T
  done : T → Answer T

-- `Inner` of the memory backend without its beats.
pub record Memory : Type 0 where
  pub state : StoreState
  pub version : ℕ

unfoldable pub token : ℕ → Option ℕ
token version = if ltb 0 version then some version else none

unfoldable pub load : Memory → Snapshot
load inner = record { state = inner.state; version = inner.version; token = token inner.version }

unfoldable pub commit : Memory → Snapshot → StoreState → Memory × Answer Snapshot
commit inner base next =
    if not (inner.version == base.version)
    then (inner, failed (ControlPlaneError.conflict base.version inner.version))
    else (
      record { state = next; version = add64 inner.version 1 },
      done (record {
        state = next;
        version = add64 inner.version 1;
        token = token (add64 inner.version 1);
      }),
    )
