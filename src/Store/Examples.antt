-- ===== src/Store/Examples.antt =====
-- A state with one user in one team, and the theorem about crates/router-store/src/state.rs there.
use rapidrouter.Prelude.{refl, none, List, [], ◌∷◌}
use rapidrouter.Access.{UserDef, TeamDef, admin, full, contains}
use rapidrouter.Store.{StoreState, Command, apply, delete_user, put_setting, put_team}
use rapidrouter.Store.Members.{IsGone, apply_all, apply_all-IsGone}

abbrev ann : UserDef
ann = record { id = "ann"; email = "ann@x"; password_hash = ""; role = admin; created_ms = 0 }

abbrev team : TeamDef
team = record {
  id = "t1";
  name = "search";
  members = "ann" ∷ "bob" ∷ [];
  models = [];
  access = full;
  created_ms = 0;
}

abbrev state : StoreState
state = record {
  config_text = none;
  virtual_keys = [];
  secrets = [];
  settings = [];
  users = ("ann", ann) ∷ [];
  teams = ("t1", team) ∷ [];
}

abbrev later : List Command
later = put_setting "theme" "dark" ∷ put_team (record team { members = "bob" ∷ [] }) ∷ []

apply_all-IsGone_example : IsGone "ann" (apply_all (apply state (delete_user "ann")) later)
unfolding contains
apply_all-IsGone_example = apply_all-IsGone "ann" state later refl
