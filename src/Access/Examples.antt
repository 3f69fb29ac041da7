-- ===== src/Access/Examples.antt =====
-- A user in one team of two, and the theorem about crates/router-core/src/access.rs there.
use rapidrouter.Prelude.{◌≡◌, refl, false, ◌||◌, List, [], ◌∷◌, any_of, all_of, leb}
use rapidrouter.Access.{TeamDef, keys, full, for_member, allows_models, rank, contains}
use rapidrouter.Access.Grants.{team_allows, team_gives, for_member-grants}

abbrev teams : List TeamDef
teams =
    record {
      id = "t1";
      name = "search";
      members = "ann" ∷ [];
      models = "openai/gpt" ∷ [];
      access = keys;
      created_ms = 0;
    }
    ∷ record {
      id = "t2";
      name = "ops";
      members = "bob" ∷ [];
      models = [];
      access = full;
      created_ms = 0;
    }
    ∷ []

listed_only : allows_models (for_member "ann" teams) ("openai/gpt" ∷ "other" ∷ []) ≡ false
unfolding allows_models for_member contains
listed_only = refl

for_member-grants_example :
    (allows_models (for_member "ann" teams) ("openai/gpt" ∷ [])
      ≡ all_of (λ model. any_of (team_allows "ann" model) teams) ("openai/gpt" ∷ []))
    × (leb 1 (rank (for_member "ann" teams).access)
        ≡ (leb 1 0 || any_of (team_gives "ann" 1) teams))
for_member-grants_example = for_member-grants "ann" teams ("openai/gpt" ∷ []) 1
