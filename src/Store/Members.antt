-- ===== src/Store/Members.antt =====
-- Membership in the state of crates/router-store/src/state.rs.
use Prim.Native.String.{String}
use text.Mathlib.TextEquality.{eq_iff}
use rapidrouter.Prelude.{
  ◌≡◌, refl, Bool, false, not, ◌||◌, none, List, [], ◌∷◌, any_of, keep, Map, get, insert, remove,
  str_eq, arith, get-insert, get-remove,
}
use rapidrouter.Access.{TeamDef, contains}
use rapidrouter.Store.{
  StoreState, Command, put_team, put_user, apply, without, remove_member, delete_user,
}

-- Some team names the user.
unfoldable pub named_in : String → Map TeamDef → Bool
unfolding contains
named_in id [] = false
named_in id ((name, team) ∷ rest) = contains team.members id || named_in id rest

-- The command puts a team that names the user, or puts the user.
abbrev pub names : String → Command → Bool
names id (put_team def) = contains def.members id
names id (put_user def) = str_eq id def.id
names id _ = false

unfoldable pub apply_all : StoreState → List Command → StoreState
apply_all s [] = s
apply_all s (c ∷ cs) = apply_all (apply s c) cs

contains-keep :
    (id : String) (ms : List String) → contains (keep (λ m. not (str_eq m id)) ms) id ≡ false
unfolding contains
contains-keep id [] = refl
contains-keep id (m ∷ ms) = ground (arith, contains-keep id ms, eq_iff m id, eq_iff id m)

contains-keep_le :
    (id other : String) (ms : List String)
    → contains ms id ≡ false
    → contains (keep (λ m. not (str_eq m other)) ms) id ≡ false
unfolding contains
contains-keep_le id other [] h = refl
contains-keep_le id other (m ∷ ms) h =
    let rest = contains-keep_le id other ms (ground arith) in ground (arith, rest)

named_in-remove_member :
    (id : String) (ts : Map TeamDef) → named_in id (remove_member id ts) ≡ false
unfolding named_in remove_member without
named_in-remove_member id [] = refl
named_in-remove_member id ((name, team) ∷ rest) =
    ground (arith, contains-keep id team.members, named_in-remove_member id rest)

named_in-remove_other :
    (id other : String) (ts : Map TeamDef)
    → named_in id ts ≡ false
    → named_in id (remove_member other ts) ≡ false
unfolding named_in remove_member without
named_in-remove_other id other [] h = refl
named_in-remove_other id other ((name, team) ∷ rest) h =
    let kept = contains-keep_le id other team.members (ground arith) in
    let others = named_in-remove_other id other rest (ground arith) in ground (arith, kept, others)

named_in-insert :
    (id key : String) (ts : Map TeamDef) (team : TeamDef)
    → named_in id ts ≡ false
    → contains team.members id ≡ false
    → named_in id (insert ts key team) ≡ false
unfolding named_in insert
named_in-insert id key [] team h fresh = ground arith
named_in-insert id key ((name, old) ∷ rest) team h fresh =
    let others = named_in-insert id key rest team (ground arith) fresh in ground (arith, others)

named_in-remove :
    (id key : String) (ts : Map TeamDef)
    → named_in id ts ≡ false
    → named_in id (remove ts key) ≡ false
unfolding named_in remove
named_in-remove id key [] h = refl
named_in-remove id key ((name, old) ∷ rest) h =
    let others = named_in-remove id key rest (ground arith) in ground (arith, others)

-- The user is gone: not in the table of users, and in no team.
abbrev pub IsGone : String → StoreState → Type 0
IsGone id s = (get s.users id ≡ none) × (named_in id s.teams ≡ false)

apply-IsGone :
    (id : String) (s : StoreState) (c : Command)
    → names id c ≡ false
    → IsGone id s
    → IsGone id (apply s c)
unfolding apply
apply-IsGone id s (Command.put_config text) h gone = gone
apply-IsGone id s (Command.put_virtual_key def) h gone = gone
apply-IsGone id s (Command.delete_virtual_key key) h gone = gone
apply-IsGone id s (Command.put_secret name sealed) h gone = gone
apply-IsGone id s (Command.delete_secret name) h gone = gone
apply-IsGone id s (Command.put_setting name value) h gone = gone
apply-IsGone id s (Command.delete_setting name) h gone = gone
apply-IsGone id s (put_user def) h (absent, unnamed) =
    (ground (arith, get-insert s.users def.id id def), unnamed)
apply-IsGone id s (delete_user other) h (absent, unnamed) =
    (ground (arith, get-remove s.users other id), named_in-remove_other id other s.teams unnamed)
apply-IsGone id s (put_team def) h (absent, unnamed) =
    (absent, named_in-insert id def.id s.teams def unnamed h)
apply-IsGone id s (Command.delete_team key) h (absent, unnamed) =
    (absent, named_in-remove id key s.teams unnamed)

delete_user-IsGone : (id : String) (s : StoreState) → IsGone id (apply s (delete_user id))
unfolding apply
delete_user-IsGone id s =
    (ground (arith, get-remove s.users id id, eq_iff id id), named_in-remove_member id s.teams)

apply_all-stays :
    (id : String) (s : StoreState) (cs : List Command)
    → any_of (names id) cs ≡ false
    → IsGone id s
    → IsGone id (apply_all s cs)
unfolding apply_all
apply_all-stays id s [] h gone = gone
apply_all-stays id s (c ∷ cs) h gone =
    apply_all-stays id (apply s c) cs (ground arith) (apply-IsGone id s c (ground arith) gone)

-- A deleted user stays gone, from the users and from every team, whatever commands follow, until one of
-- them puts the user or a team that names the user.
pub apply_all-IsGone :
    (id : String) (s : StoreState) (cs : List Command)
    → any_of (names id) cs ≡ false
    → IsGone id (apply_all (apply s (delete_user id)) cs)
apply_all-IsGone id s cs h =
    apply_all-stays id (apply s (delete_user id)) cs h (delete_user-IsGone id s)
