-- ===== src/Logins/Examples.antt =====
-- The registry of device logins of crates/router-server/src/device_login.rs on one seat.
use rapidrouter.Prelude.{◌≤◌, ◌≡◌, refl, true, none, [], Map, get, insert, arith}
use rapidrouter.Logins.{
  DeviceLogin, Begun, signed, settle, reap, outstanding, Seat, begin_login, finish, minting,
  new_login,
}
use rapidrouter.Logins.Codes.{
  Run, empty, minted, live_count, Run-one_code, overlapping_starts, first_stored,
}

abbrev seat : Seat
seat = record {
  has_provider = true;
  is_codex = true;
  has_credential = true;
  is_seat = true;
  has_file = true;
}

abbrev one_login : Map DeviceLogin
one_login = finish [] "dl_1" "codex" "seat" 1000 "ABCD" "https://auth.openai.com/codex/device"

first_start : Run 1000 one_login
unfolding begin_login reap outstanding get
first_start =
    minted {now' = 1000} seat "codex" "seat" "dl_1" "ABCD" "https://auth.openai.com/codex/device"
      empty (omega arith) refl refl

-- A second start hands the code back.
handed_again :
    (begin_login one_login seat "codex" "seat" 2000).1
    ≡ Begun.handed_back "dl_1"
        (new_login "codex" "seat" 1000 "ABCD" "https://auth.openai.com/codex/device")
unfolding begin_login reap outstanding get finish insert new_login
handed_again = refl

-- A finished login is remembered for five minutes.
reaped : reap (settle one_login "dl_1" (signed none) 6000) 306000 ≡ []
unfolding reap settle finish insert new_login
reaped = refl

Run-one_code_example : live_count "codex" "seat" one_login 1000 ≤ 1
Run-one_code_example = Run-one_code "codex" "seat" first_start

overlapping_starts_example :
    ((begin_login (begin_login [] seat "codex" "seat" 1000).0 seat "codex" "seat" 1500).1 ≡ minting)
    × (live_count "codex" "seat"
          (finish
            (first_stored "codex" "seat" [] seat 1000 1500 "dl_1" "ABCD" "https://a")
            "dl_2"
            "codex"
            "seat"
            1500
            "EFGH"
            "https://a")
          1500
        ≡ 2)
unfolding begin_login reap outstanding get finish insert
overlapping_starts_example =
    overlapping_starts "codex" "seat" [] seat 1000 1500 "dl_1" "dl_2" "ABCD" "EFGH" "https://a"
      (omega arith) (omega arith) (omega arith) refl refl refl
