-- ===== src/Store.antt =====
-- crates/router-store/src/state.rs: the state that the log's commands build. The maps are association
-- lists, read by their keys.
pub mod Members
pub mod Plane
pub mod Commit
mod Examples
use Prim.Native.String.{String}
use rapidrouter.Prelude.{
  ℕ, Bool, true, false, not, Option, none, some, List, [], ◌∷◌, keep, map, Map, insert, remove,
  str_eq,
}
use rapidrouter.Access.{UserDef, TeamDef}
use rapidrouter.Vkey.Runtime.{VirtualKeyDef}

-- `SealedSecret` of crates/router-store/src/seal.rs, which only the cipher reads.
pub record SealedSecret : Type 0 where
  pub nonce : String
  pub ct : String

pub record StoreState : Type 0 where
  pub config_text : Option String
  pub virtual_keys : Map VirtualKeyDef
  pub secrets : Map SealedSecret
  pub settings : Map String
  pub users : Map UserDef
  pub teams : Map TeamDef

pub data Command : Type 0 where
  put_config : String → Command
  put_virtual_key : VirtualKeyDef → Command
  delete_virtual_key : String → Command
  put_secret : String → SealedSecret → Command
  delete_secret : String → Command
  put_setting : String → String → Command
  delete_setting : String → Command
  put_user : UserDef → Command
  delete_user : String → Command
  put_team : TeamDef → Command
  delete_team : String → Command

unfoldable pub without : String → TeamDef → TeamDef
without id team = record team { members = keep (λ m. not (str_eq m id)) team.members }

unfoldable pub remove_member : String → Map TeamDef → Map TeamDef
unfolding without
remove_member id [] = []
remove_member id ((name, team) ∷ rest) = (name, without id team) ∷ remove_member id rest

unfoldable pub apply : StoreState → Command → StoreState
unfolding remove_member
apply s (put_config text) = record s { config_text = some text }
apply s (put_virtual_key def) = record s { virtual_keys = insert s.virtual_keys def.id def }
apply s (delete_virtual_key id) = record s { virtual_keys = remove s.virtual_keys id }
apply s (put_secret name sealed) = record s { secrets = insert s.secrets name sealed }
apply s (delete_secret name) = record s { secrets = remove s.secrets name }
apply s (put_setting name value) = record s { settings = insert s.settings name value }
apply s (delete_setting name) = record s { settings = remove s.settings name }
apply s (put_user def) = record s { users = insert s.users def.id def }
apply s (delete_user id) = record s { users = remove s.users id; teams = remove_member id s.teams }
apply s (put_team def) = record s { teams = insert s.teams def.id def }
apply s (delete_team id) = record s { teams = remove s.teams id }

unfoldable pub virtual_key_defs : StoreState → List VirtualKeyDef
virtual_key_defs s = map (λ entry. entry.1) s.virtual_keys
