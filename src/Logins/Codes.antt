-- ===== src/Logins/Codes.antt =====
-- How many codes a seat may have outstanding: the proofs about the registry of
-- crates/router-server/src/device_login.rs.
use Prim.Native.String.{String}
use rapidrouter.Prelude.{
  ℕ, suc, ◌+◌, ◌≤◌, ◌<◌, ◌≡◌, refl, subst, ◌∙◌, true, false, Option, none, some, [], ◌∷◌, Map, get,
  insert, if◌then◌else◌, eq_iff, arith, Bool-cases, inl, inr, u64_max,
}
use rapidrouter.Logins.{
  LoginOutcome, DeviceLogin, is_waiting, settle, reap, is_live, outstanding, Seat, handed, minting,
  begin_login, new_login, finish, code_ttl_ms,
}

module _ (provider key : String) where
  -- The codes of the seat that may still be claimed.
  unfoldable pub live_count : Map DeviceLogin → ℕ → ℕ
  live_count [] now_ms = 0
  live_count ((id, login) ∷ rest) now_ms =
      let others = live_count rest now_ms in
      if is_live provider key now_ms login then suc others else others

  live_count-later :
      (sessions : Map DeviceLogin) (now_ms now_ms' : ℕ)
      → now_ms ≤ now_ms'
      → live_count sessions now_ms' ≤ live_count sessions now_ms
  unfolding live_count is_live
  live_count-later [] now_ms now_ms' h = omega arith
  live_count-later ((id, login) ∷ rest) now_ms now_ms' h =
      ground (arith, live_count-later rest now_ms now_ms' h)

  live_count-reap :
      (sessions : Map DeviceLogin) (at now_ms : ℕ)
      → live_count (reap sessions at) now_ms ≤ live_count sessions now_ms
  unfolding live_count reap
  live_count-reap [] at now_ms = omega arith
  live_count-reap ((id, login) ∷ rest) at now_ms = ground (arith, live_count-reap rest at now_ms)

  live_count-settle :
      (sessions : Map DeviceLogin) (id : String) (outcome : LoginOutcome) (at now_ms : ℕ)
      → is_waiting outcome ≡ false
      → live_count (settle sessions id outcome at) now_ms ≤ live_count sessions now_ms
  unfolding live_count settle is_live
  live_count-settle [] id outcome at now_ms done = omega arith
  live_count-settle ((id', login) ∷ rest) id outcome at now_ms done =
      ground (arith, live_count-settle rest id outcome at now_ms done)

  live_count-insert :
      (sessions : Map DeviceLogin) (id : String) (login : DeviceLogin) (now_ms : ℕ)
      → get sessions id ≡ none
      → live_count (insert sessions id login) now_ms ≡ (
          if is_live provider key now_ms login
          then suc (live_count sessions now_ms)
          else live_count sessions now_ms)
  unfolding live_count insert get
  live_count-insert [] id login now_ms fresh = refl
  live_count-insert ((id', login') ∷ rest) id login now_ms fresh =
      ground (arith, live_count-insert rest id login now_ms)

  live_count-outstanding :
      (sessions : Map DeviceLogin) (now_ms : ℕ)
      → outstanding sessions provider key now_ms ≡ none
      → live_count sessions now_ms ≡ 0
  unfolding live_count outstanding
  live_count-outstanding [] now_ms h = refl
  live_count-outstanding ((id, login) ∷ rest) now_ms h =
      ground (arith, live_count-outstanding rest now_ms)

  outstanding-live_count :
      (sessions : Map DeviceLogin) (now_ms : ℕ)
      → live_count sessions now_ms ≡ 0
      → outstanding sessions provider key now_ms ≡ none
  unfolding live_count outstanding
  outstanding-live_count [] now_ms h = refl
  outstanding-live_count ((id, login) ∷ rest) now_ms h =
      ground (arith, outstanding-live_count rest now_ms)

handed-minting : (o : Option (String × DeviceLogin)) → handed o ≡ minting → o ≡ none
unfolding handed
handed-minting none h = refl
handed-minting (some (id, login)) h = cc

-- A code is minted only when the seat has none outstanding.
begin-minting :
    (sessions : Map DeviceLogin) (seat : Seat) (provider key : String) (now_ms : ℕ)
    → (begin_login sessions seat provider key now_ms).1 ≡ minting
    → outstanding (reap sessions now_ms) provider key now_ms ≡ none
unfolding begin_login
begin-minting sessions seat provider key now_ms h =
    handed-minting (outstanding (reap sessions now_ms) provider key now_ms) (ground arith)

-- Starts that do not overlap, and the ends of logins, in the order of time.
pub data Run : ℕ → Map DeviceLogin → Type 0 where
  empty : Run 0 []
  answered :
      {now now' : ℕ} {sessions : Map DeviceLogin} (seat : Seat) (provider key : String)
      → Run now sessions
      → now ≤ now'
      → Run now' (begin_login sessions seat provider key now').0
  minted :
      {now now' : ℕ} {sessions : Map DeviceLogin} (seat : Seat)
      (provider key id user_code url : String)
      → Run now sessions
      → now ≤ now'
      → (begin_login sessions seat provider key now').1 ≡ minting
      → get (begin_login sessions seat provider key now').0 id ≡ none
      → Run now' (
          finish (begin_login sessions seat provider key now').0 id provider key now' user_code url)
  settled :
      {now now' : ℕ} {sessions : Map DeviceLogin} (id : String) (outcome : LoginOutcome)
      → Run now sessions
      → now ≤ now'
      → is_waiting outcome ≡ false
      → Run now' (settle sessions id outcome now')

module _ (provider key : String) where
  live_count-begin :
      (sessions : Map DeviceLogin) (seat : Seat) (p k : String) (now now' : ℕ)
      → now ≤ now'
      → live_count provider key sessions now ≤ 1
      → live_count provider key (begin_login sessions seat p k now').0 now' ≤ 1
  unfolding begin_login
  live_count-begin sessions seat p k now now' later one = omega (
    arith,
    live_count-reap provider key sessions now' now',
    live_count-later provider key sessions now now' later,
  )

  same_seat :
      (p k : String) (login : DeviceLogin) (now : ℕ)
      → login.provider ≡ p
      → login.key ≡ k
      → is_live provider key now login ≡ true
      → (p ≡ provider) × (k ≡ key)
  unfolding is_live
  same_seat p k login now e e' live =
      ground (arith, eq_iff login.provider provider, eq_iff login.key key)

  live_count-finish :
      (sessions : Map DeviceLogin) (id p k user_code url : String) (now : ℕ)
      → get sessions id ≡ none
      → outstanding sessions p k now ≡ none
      → live_count provider key sessions now ≤ 1
      → live_count provider key (finish sessions id p k now user_code url) now ≤ 1
  unfolding finish
  live_count-finish sessions id p k user_code url now fresh free one =
      let login = new_login p k now user_code url in
      let counted = live_count-insert provider key sessions id login now fresh in
      elim (Bool-cases (is_live provider key now login)) [
        | inr other ↦ rw counted (rw other one)
        | inl live ↦
            let (at, at') =
              same_seat p k login now (unfold new_login in refl) (unfold new_login in refl) live in
            let free' : outstanding sessions provider key now ≡ none =
              subst (λ q. outstanding sessions q key now ≡ none) at
                (subst (λ q. outstanding sessions p q now ≡ none) at' free) in
            let none_yet = live_count-outstanding provider key sessions now free' in
            rw counted (rw live (rw none_yet (omega arith)))
      ]

  -- While starts do not overlap, a seat never has two codes that may still be claimed: at any time of a
  -- run of starts, answered or minting, and of logins that end, at most one.
  pub Run-one_code :
      {now : ℕ} {sessions : Map DeviceLogin}
      → Run now sessions
      → live_count provider key sessions now ≤ 1
  Run-one_code empty = unfold live_count in omega arith
  Run-one_code (answered {now = now} {now' = now'} {sessions = s} seat p k run later) =
      live_count-begin s seat p k now now' later (Run-one_code run)
  Run-one_code (settled {now = now} {now' = now'} {sessions = s} id outcome run later done) =
      omega (
        arith,
        live_count-settle provider key s id outcome now' now' done,
        live_count-later provider key s now now' later,
        Run-one_code run,
      )
  Run-one_code
        (minted {now = now} {now' = now'} {sessions = s} seat p k id code url run later mints
          fresh) =
      live_count-finish (begin_login s seat p k now').0 id p k code url now' fresh
        (unfold begin_login in begin-minting s seat p k now' mints)
        (live_count-begin s seat p k now now' later (Run-one_code run))

  begin-again :
      (sessions : Map DeviceLogin) (seat : Seat) (now now' : ℕ)
      → now ≤ now'
      → (begin_login sessions seat provider key now).1 ≡ minting
      → outstanding (reap (begin_login sessions seat provider key now).0 now') provider key now'
        ≡ none
  unfolding begin_login
  begin-again sessions seat now now' later mints =
      let free = begin-minting sessions seat provider key now mints in
      let none_yet = live_count-outstanding provider key (reap sessions now) now free in
      outstanding-live_count provider key (reap (reap sessions now) now') now' (
        omega (
          arith,
          live_count-reap provider key (reap sessions now) now' now',
          live_count-later provider key (reap sessions now) now now' later,
        ))

  mints-again :
      (sessions others : Map DeviceLogin) (seat : Seat) (now now' : ℕ)
      → (begin_login sessions seat provider key now).1 ≡ minting
      → outstanding (reap others now') provider key now' ≡ none
      → (begin_login others seat provider key now').1 ≡ minting
  unfolding begin_login handed
  mints-again sessions others seat now now' mints free = ground arith

  finish-live :
      (sessions : Map DeviceLogin) (id code url : String) (now now' : ℕ)
      → get sessions id ≡ none
      → now' < now + code_ttl_ms
      → now + code_ttl_ms < u64_max
      → live_count provider key (finish sessions id provider key now code url) now'
        ≡ suc (live_count provider key sessions now')
  unfolding finish is_live new_login is_waiting
  finish-live sessions id code url now now' fresh soon small =
      let login = new_login provider key now code url in
      live_count-insert provider key sessions id login now' fresh
      ∙ ground (arith, eq_iff provider provider, eq_iff key key)

  -- The registry after the beginnings of two starts, and after the first has been given its code.
  abbrev pub begun_twice : Map DeviceLogin → Seat → ℕ → ℕ → Map DeviceLogin
  begun_twice sessions seat now now' =
      (begin_login (begin_login sessions seat provider key now).0 seat provider key now').0

  abbrev pub first_stored :
      Map DeviceLogin → Seat → ℕ → ℕ → String → String → String → Map DeviceLogin
  first_stored sessions seat now now' id code url =
      finish (begun_twice sessions seat now now') id provider key now code url

  -- Two starts for one seat that overlap, the second beginning before the first has been given its code,
  -- both mint one, and the seat has two codes that may be claimed at once.
  pub overlapping_starts :
      (sessions : Map DeviceLogin) (seat : Seat) (now now' : ℕ) (id id' code code' url : String)
      → now ≤ now'
      → now' < now + code_ttl_ms
      → now' + code_ttl_ms < u64_max
      → (begin_login sessions seat provider key now).1 ≡ minting
      → get (begun_twice sessions seat now now') id ≡ none
      → get (first_stored sessions seat now now' id code url) id' ≡ none
      → ((begin_login (begin_login sessions seat provider key now).0 seat provider key now').1
          ≡ minting)
        × (live_count provider key
              (finish
                (first_stored sessions seat now now' id code url)
                id'
                provider
                key
                now'
                code'
                url)
              now'
            ≡ 2)
  overlapping_starts sessions seat now now' id id' code code' url later soon small mints fresh
        fresh' =
      let first = (begin_login sessions seat provider key now).0 in
      let free = begin-again sessions seat now now' later mints in
      let again = mints-again sessions first seat now now' mints free in
      let second = (begin_login first seat provider key now').0 in
      let stored = finish second id provider key now code url in
      let same : outstanding second provider key now' ≡ none = unfold begin_login in free in
      let none_yet = live_count-outstanding provider key second now' same in
      (
        again,
        omega (
          arith,
          finish-live second id code url now now' fresh soon (omega arith),
          finish-live stored id' code' url now' now' fresh' (omega arith) small,
        ),
      )
