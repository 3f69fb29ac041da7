-- ===== src/Access.antt =====
-- crates/router-core/src/access.rs: what a person at the console may touch. A set of names is a list,
-- read only by whether it contains a name; passwords, which are hashed by argon2, are left out.
pub mod Grants
mod Examples
use Prim.Native.String.{String}
use rapidrouter.Prelude.{
  ℕ, Bool, true, false, Option, none, some, List, [], ◌∷◌, ◌++◌, any_of, all_of, is_empty, leb,
  if◌then◌else◌, str_eq,
}

pub data UserRole : Type 0 where
  admin member : UserRole

pub record UserDef : Type 0 where
  pub id : String
  pub email : String
  pub password_hash : String
  pub role : UserRole
  pub created_ms : ℕ

pub data TeamAccess : Type 0 where
  read_only keys full : TeamAccess

pub record TeamDef : Type 0 where
  pub id : String
  pub name : String
  pub members : List String
  pub models : List String
  pub access : TeamAccess
  pub created_ms : ℕ

pub record Grant : Type 0 where
  pub access : TeamAccess
  pub models : Option (List String)
  pub teams : List String

unfoldable pub contains : List String → String → Bool
contains set name = any_of (str_eq name) set

-- The derived order, weakest first, and its `max`.
unfoldable pub rank : TeamAccess → ℕ
rank read_only = 0
rank keys = 1
rank full = 2

unfoldable pub stronger : TeamAccess → TeamAccess → TeamAccess
unfolding rank
stronger a b = if leb (rank a) (rank b) then b else a

unfoldable pub admin_grant : Grant
admin_grant = record { access = full; models = none; teams = [] }

unfoldable pub joined : Option (List String) → List String → Option (List String)
joined none models = none
joined (some set) models = if is_empty models then none else some (set ++ models)

unfoldable pub join_team : String → Grant → TeamDef → Grant
unfolding contains stronger joined
join_team user_id g team =
    if contains team.members user_id
    then record {
      access = stronger g.access team.access;
      models = joined g.models team.models;
      teams = g.teams ++ (team.id ∷ []);
    }
    else g

unfoldable pub join_teams : String → Grant → List TeamDef → Grant
unfolding join_team
join_teams user_id g [] = g
join_teams user_id g (team ∷ rest) = join_teams user_id (join_team user_id g team) rest

-- Who is in no team is granted no models.
unfoldable pub teamless : Grant → Grant
teamless g = if is_empty g.teams then record g { models = some [] } else g

unfoldable pub for_member : String → List TeamDef → Grant
unfolding join_teams teamless
for_member user_id teams =
    teamless
      (join_teams user_id (record { access = read_only; models = some []; teams = [] }) teams)

unfoldable pub within : Option (List String) → List String → Bool
unfolding contains
within none requested = true
within (some allowed) requested = all_of (contains allowed) requested

unfoldable pub allows_models : Grant → List String → Bool
unfolding within
allows_models g requested = within g.models requested
