-- ===== src/Logins.antt =====
-- crates/router-server/src/device_login.rs: the registry of device logins, and the start of one. A start
-- has two parts with a request to the provider between them, so that other starts may come in between:
-- `begin_login` up to the request, `finish` after it. What the routing table says of the seat, the code that the
-- provider mints and the fresh id are arguments.
pub mod Codes
mod Examples
use Prim.Native.String.{String}
use rapidrouter.Prelude.{
  ℕ, ◌+◌, ◌-◌, ◌*◌, Bool, true, false, not, ◌&&◌, Option, none, some, List, [], ◌∷◌, Map, get,
  insert, keep, length, ltb, is_some, if◌then◌else◌, str_eq, add64, sat_add64,
}

-- `RETAIN_FINISHED_MS`, and `CODEX_DEVICE_CODE_TTL_S` in milliseconds.
abbrev pub retain_finished_ms : ℕ
retain_finished_ms = 300000

abbrev pub code_ttl_ms : ℕ
code_ttl_ms = 900000

pub data LoginOutcome : Type 0 where
  waiting : LoginOutcome
  signed : Option String → LoginOutcome
  login_failed : String → LoginOutcome

pub record DeviceLogin : Type 0 where
  pub provider : String
  pub key : String
  pub user_code : String
  pub verification_url : String
  pub expires_at_ms : ℕ
  pub outcome : LoginOutcome
  pub finished_at_ms : Option ℕ

unfoldable pub is_waiting : LoginOutcome → Bool
is_waiting waiting = true
is_waiting _ = false

-- `settle`: an id that is gone is ignored.
unfoldable pub settle : Map DeviceLogin → String → LoginOutcome → ℕ → Map DeviceLogin
settle [] id outcome now_ms = []
settle ((at, login) ∷ rest) id outcome now_ms =
    if str_eq id at
    then (at, record login { outcome = outcome; finished_at_ms = some now_ms }) ∷ rest
    else (at, login) ∷ settle rest id outcome now_ms

unfoldable pub is_retained : ℕ → DeviceLogin → Option ℕ → Bool
is_retained now_ms login (some at) = ltb (now_ms - at) retain_finished_ms
is_retained now_ms login none = ltb now_ms (sat_add64 login.expires_at_ms retain_finished_ms)

unfoldable pub reap : Map DeviceLogin → ℕ → Map DeviceLogin
unfolding is_retained
reap sessions now_ms = keep (λ entry. is_retained now_ms entry.1 entry.1.finished_at_ms) sessions

-- A code that the seat's operator may still claim.
unfoldable pub is_live : String → String → ℕ → DeviceLogin → Bool
unfolding is_waiting
is_live provider key now_ms login =
    (str_eq login.provider provider && str_eq login.key key)
    && (is_waiting login.outcome && ltb now_ms login.expires_at_ms)

-- `outstanding`: some live code of the seat.
unfoldable pub outstanding : Map DeviceLogin → String → String → ℕ → Option (String × DeviceLogin)
unfolding is_live
outstanding [] provider key now_ms = none
outstanding ((id, login) ∷ rest) provider key now_ms =
    let later = outstanding rest provider key now_ms in
    if is_live provider key now_ms login then some (id, login) else later

-- What the routing table says of the seat.
pub record Seat : Type 0 where
  pub has_provider : Bool
  pub is_codex : Bool
  pub has_credential : Bool
  pub is_seat : Bool
  pub has_file : Bool

pub data Refusal : Type 0 where
  no_provider other_flow no_credential no_seat nowhere_to_write : Refusal

pub data Begun : Type 0 where
  refused : Refusal → Begun
  handed_back : String → DeviceLogin → Begun
  minting : Begun

unfoldable pub handed : Option (String × DeviceLogin) → Begun
handed none = minting
handed (some (id, login)) = handed_back id login

unfoldable pub begin_login : Map DeviceLogin → Seat → String → String → ℕ → Map DeviceLogin × Begun
unfolding reap outstanding handed
begin_login sessions seat provider key now_ms =
    let sessions' = reap sessions now_ms in
    (
      sessions',
      if not seat.has_provider
          then refused no_provider
          else if not seat.is_codex
          then refused other_flow
          else if not seat.has_credential
          then refused no_credential
          else if not seat.is_seat
          then refused no_seat
          else if not seat.has_file
          then refused nowhere_to_write
          else handed (outstanding sessions' provider key now_ms),
    )

-- The login of a code minted for a start at a time.
unfoldable pub new_login : String → String → ℕ → String → String → DeviceLogin
new_login provider key now_ms user_code url = record {
  provider = provider;
  key = key;
  user_code = user_code;
  verification_url = url;
  expires_at_ms = add64 now_ms code_ttl_ms;
  outcome = waiting;
  finished_at_ms = none;
}

unfoldable pub finish :
    Map DeviceLogin → String → String → String → ℕ → String → String → Map DeviceLogin
unfolding new_login
finish sessions id provider key now_ms user_code url =
    insert sessions id (new_login provider key now_ms user_code url)
