-- ===== src/Access/Grants.antt =====
-- What a member of teams is granted by crates/router-core/src/access.rs.
use Prim.Native.String.{String}
use rapidrouter.Prelude.{
  ℕ, ◌≡◌, refl, Bool, true, false, ◌&&◌, ◌||◌, Option, none, some, List, [], ◌∷◌, ◌++◌, any_of,
  all_of, is_empty, leb, arith, ◌∙◌, Bool-cases, inl, inr,
}
use rapidrouter.Access.{
  TeamDef, Grant, contains, rank, stronger, joined, join_team, join_teams, teamless, for_member,
  within, allows_models, read_only,
}

-- A team of the user that lists the model, or lists none and so is unrestricted.
abbrev pub team_allows : String → String → TeamDef → Bool
team_allows user_id model team =
    contains team.members user_id && (is_empty team.models || contains team.models model)

-- A team of the user that gives at least some access.
abbrev pub team_gives : String → ℕ → TeamDef → Bool
team_gives user_id level team = contains team.members user_id && leb level (rank team.access)

contains-append :
    (xs ys : List String) (m : String) → contains (xs ++ ys) m ≡ (contains xs m || contains ys m)
unfolding contains
contains-append [] ys m = refl
contains-append (x ∷ xs) ys m = ground (arith, contains-append xs ys m)

within-joined :
    (before : Option (List String)) (models : List String) (model : String)
    → within (joined before models) (model ∷ [])
      ≡ (within before (model ∷ []) || (is_empty models || contains models model))
unfolding joined within
within-joined none models model = ground arith
within-joined (some set) models model = ground (arith, contains-append set models model)

within-join_team :
    (user_id model : String) (g : Grant) (team : TeamDef)
    → within (join_team user_id g team).models (model ∷ [])
      ≡ (within g.models (model ∷ []) || team_allows user_id model team)
unfolding join_team
within-join_team user_id model g team = ground (arith, within-joined g.models team.models model)

within-join_teams :
    (user_id model : String) (g : Grant) (teams : List TeamDef)
    → within (join_teams user_id g teams).models (model ∷ [])
      ≡ (within g.models (model ∷ []) || any_of (team_allows user_id model) teams)
unfolding join_teams
within-join_teams user_id model g [] = ground arith
within-join_teams user_id model g (team ∷ rest) = ground (
  arith,
  within-join_teams user_id model (join_team user_id g team) rest,
  within-join_team user_id model g team,
)

rank-join_team :
    (user_id : String) (level : ℕ) (g : Grant) (team : TeamDef)
    → leb level (rank (join_team user_id g team).access)
      ≡ (leb level (rank g.access) || team_gives user_id level team)
unfolding join_team stronger
rank-join_team user_id level g team = ground arith

rank-join_teams :
    (user_id : String) (level : ℕ) (g : Grant) (teams : List TeamDef)
    → leb level (rank (join_teams user_id g teams).access)
      ≡ (leb level (rank g.access) || any_of (team_gives user_id level) teams)
unfolding join_teams
rank-join_teams user_id level g [] = ground arith
rank-join_teams user_id level g (team ∷ rest) = ground (
  arith,
  rank-join_teams user_id level (join_team user_id g team) rest,
  rank-join_team user_id level g team,
)

is_empty-append : (names : List String) (name : String) → is_empty (names ++ (name ∷ [])) ≡ false
is_empty-append [] name = refl
is_empty-append (x ∷ rest) name = refl

is_empty-join_teams :
    (user_id model : String) (g : Grant) (teams : List TeamDef)
    → is_empty (join_teams user_id g teams).teams ≡ true
    → (is_empty g.teams ≡ true) × (any_of (team_allows user_id model) teams ≡ false)
unfolding join_teams join_team
is_empty-join_teams user_id model g [] h = (h, refl)
is_empty-join_teams user_id model g (team ∷ rest) h =
    let (before, none_after) =
      is_empty-join_teams user_id model (join_team user_id g team) rest h in
    (
      ground (arith, before, is_empty-append g.teams team.id),
      ground (arith, before, none_after, is_empty-append g.teams team.id),
    )

within-for_member :
    (user_id model : String) (teams : List TeamDef)
    → within (for_member user_id teams).models (model ∷ [])
      ≡ any_of (team_allows user_id model) teams
unfolding for_member teamless within contains
within-for_member user_id model teams =
    let start : Grant = record { access = read_only; models = some []; teams = [] } in
    let joined_all = within-join_teams user_id model start teams in
    elim (Bool-cases (is_empty (join_teams user_id start teams).teams)) [
      | inl alone ↦
          let (_, nothing) = is_empty-join_teams user_id model start teams alone in
          rw (alone, nothing) refl
      | inr listed ↦ rw listed joined_all
    ]

within-all :
    (models : Option (List String)) (requested : List String)
    → within models requested ≡ all_of (λ model. within models (model ∷ [])) requested
unfolding within
within-all none [] = refl
within-all none (m ∷ rest) = within-all none rest
within-all (some allowed) [] = refl
within-all (some allowed) (m ∷ rest) = ground (arith, within-all (some allowed) rest)

all_of-same :
    (p q : String → Bool) (names : List String)
    → ((name : String) → p name ≡ q name)
    → all_of p names ≡ all_of q names
all_of-same p q [] same = refl
all_of-same p q (x ∷ rest) same = ground (arith, same x, all_of-same p q rest same)

-- A member may use the models requested if and only if, for each of them, one of the teams that the member
-- is in lists it or lists none; and has a level of access above the least if and only if one of those
-- teams gives it.
pub for_member-grants :
    (user_id : String) (teams : List TeamDef) (requested : List String) (level : ℕ)
    → (allows_models (for_member user_id teams) requested
        ≡ all_of (λ model. any_of (team_allows user_id model) teams) requested)
      × (leb level (rank (for_member user_id teams).access)
          ≡ (leb level 0 || any_of (team_gives user_id level) teams))
unfolding allows_models for_member teamless rank
for_member-grants user_id teams requested level =
    let start : Grant = record { access = read_only; models = some []; teams = [] } in
    (
      within-all (for_member user_id teams).models requested
          ∙ all_of-same (λ model. within (for_member user_id teams).models (model ∷ []))
              (λ model. any_of (team_allows user_id model) teams) requested
              (λ model. within-for_member user_id model teams),
      ground (arith, rank-join_teams user_id level start teams),
    )
