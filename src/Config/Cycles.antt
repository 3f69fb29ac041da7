-- ===== src/Config/Cycles.antt =====
-- How a chain of aliases ends: the proofs about `resolve_alias` of
-- crates/router-core/src/config/validate.rs.
use Prim.Native.String.{String}
use rapidrouter.Prelude.{
  ℕ, zero, suc, ◌≤◌, ◌<◌, ◌≡◌, true, false, not, none, some, List, [], ◌∷◌, Map, get, length,
  length-keep-le, is_some, keep, All, str_eq, eq_iff, arith, Bool-cases, Option-cases, inl, inr,
  subst,
}
use rapidrouter.Config.Aliases.{
  AliasEnd, terminal, cycle, no_alias, out_of_fuel, has_name, resolve_alias,
}

-- The alias leads to the text in one step or more.
pub data Follows (aliases : Map String) : String → String → Type 0 where
  step : {a b : String} → get aliases a ≡ some b → Follows aliases a b
  next : {a b c : String} → Follows aliases a b → get aliases b ≡ some c → Follows aliases a c

-- What the end of a chain says of the aliases.
abbrev pub Ends : Map String → String → AliasEnd → Type 0
Ends aliases name (terminal target) = Follows aliases name target × (get aliases target ≡ none)
Ends aliases name (cycle at) = Follows aliases at at
Ends aliases name no_alias = ⊥
Ends aliases name out_of_fuel = ⊥

-- The entries whose names have not been seen.
abbrev unseen : Map String → List String → ℕ
unseen aliases seen = length (keep (λ entry. not (has_name seen entry.0)) aliases)

unseen-le :
    (aliases : Map String) (name : String) (seen : List String)
    → unseen aliases (name ∷ seen) ≤ unseen aliases seen
unfolding has_name
unseen-le [] name seen = omega arith
unseen-le ((key, value) ∷ rest) name seen = ground (arith, unseen-le rest name seen)

-- A name seen for the first time leaves fewer.
unseen-lt :
    (aliases : Map String) (name target : String) (seen : List String)
    → get aliases name ≡ some target
    → has_name seen name ≡ false
    → unseen aliases (name ∷ seen) < unseen aliases seen
unfolding get has_name
unseen-lt [] name target seen found new = absurd (ground arith)
unseen-lt ((key, value) ∷ rest) name target seen found new = elim (Bool-cases (str_eq name key)) [
  | inl here ↦
      let same = (eq_iff name key).0 here in
      let new' = subst (λ n. has_name seen n ≡ false) same new in
      ground (arith, unseen-le rest name seen)
  | inr elsewhere ↦ ground (arith, unseen-lt rest name target seen)
]

has_name-Follows :
    (aliases : Map String) (seen : List String) (name : String)
    → All (λ s. Follows aliases s name) seen
    → has_name seen name ≡ true
    → Follows aliases name name
unfolding has_name
has_name-Follows aliases [] name led found = cc
has_name-Follows aliases (s ∷ seen) name led found = elim (Bool-cases (str_eq s name)) [
  | inl here ↦ subst (λ n. Follows aliases n name) ((eq_iff s name).0 here) led.0
  | inr elsewhere ↦ has_name-Follows aliases seen name led.1 (ground arith)
]

All-next :
    (aliases : Map String) (seen : List String) (name target : String)
    → All (λ s. Follows aliases s name) seen
    → get aliases name ≡ some target
    → All (λ s. Follows aliases s target) seen
All-next aliases [] name target led found = tt
All-next aliases (s ∷ seen) name target led found =
    (next led.0 found, All-next aliases seen name target led.1 found)

Follows-before :
    (aliases : Map String) (a b c : String)
    → get aliases a ≡ some b
    → Follows aliases b c
    → Follows aliases a c
Follows-before aliases a b c first (step e) = next (step first) e
Follows-before aliases a b c first (next {b = m} rest e) =
    next (Follows-before aliases a b m first rest) e

Ends-before :
    (aliases : Map String) (name target : String) (end : AliasEnd)
    → get aliases name ≡ some target
    → Ends aliases target end
    → Ends aliases name end
Ends-before aliases name target (terminal t) found (led, last) =
    (Follows-before aliases name target t found led, last)
Ends-before aliases name target (cycle at) found around = around
Ends-before aliases name target no_alias found h = h
Ends-before aliases name target out_of_fuel found h = h

resolve_alias-Ends_from :
    (fuel : ℕ) (aliases : Map String) (seen : List String) (name : String)
    → unseen aliases seen < fuel
    → is_some (get aliases name) ≡ true
    → All (λ s. Follows aliases s name) seen
    → Ends aliases name (resolve_alias fuel aliases seen name)
unfolding resolve_alias
resolve_alias-Ends_from zero aliases seen name enough there led = absurd (omega arith)
resolve_alias-Ends_from (suc fuel) aliases seen name enough there led =
    elim (Bool-cases (has_name seen name)) [
      | inl again ↦ rw again (has_name-Follows aliases seen name led again)
      | inr new ↦ elim (Option-cases (get aliases name)) [
        | inl missing ↦ absurd (ground arith)
        | inr (target, found) ↦ elim (Bool-cases (is_some (get aliases target))) [
          | inl more ↦
              let fewer = unseen-lt aliases name target seen found new in
              let led' : All (λ s. Follows aliases s target) (name ∷ seen) =
                (step found, All-next aliases seen name target led found) in
              let rest =
                resolve_alias-Ends_from fuel aliases (name ∷ seen) target (omega arith) more led' in
              rw (new, found, more)
                (Ends-before aliases name target (resolve_alias fuel aliases (name ∷ seen) target)
                  found rest)
          | inr last ↦ rw (new, found, last) (step found, ground arith)
        ]
      ]
    ]

-- Every alias of a document is followed to its end with fuel for one step more than there are aliases: to
-- a text that is no alias and that the chain leads to, or to the report of a name that leads back to
-- itself. A chain is never followed from a name that is not an alias.
pub resolve_alias-Ends :
    (aliases : Map String) (name : String)
    → is_some (get aliases name) ≡ true
    → Ends aliases name (resolve_alias (suc (length aliases)) aliases [] name)
resolve_alias-Ends aliases name there =
    resolve_alias-Ends_from (suc (length aliases)) aliases [] name
      (omega (arith, length-keep-le (λ entry. not (has_name [] entry.0)) aliases)) there tt
