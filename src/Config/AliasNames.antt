-- ===== src/Config/AliasNames.antt =====
-- What an accepted section of aliases holds: the proofs about `validate_aliases` of
-- crates/router-core/src/config/validate.rs.
use Prim.Native.String.{String}
use rapidrouter.Prelude.{
  suc, ◌≡◌, refl, true, Option, none, some, [], Map, get, length, is_some, arith, ap, ◌∙◌,
  Bool-cases, Option-cases, inl, inr, subst,
}
use rapidrouter.Router.Table.{TargetModel, parse_target}
use rapidrouter.Config.Raw.{RawConfig}
use rapidrouter.Config.Checked.{Accepts, HasDistinctNames, Matches, validate_each-Matches}
use rapidrouter.Config.Aliases.{
  AliasEnd, has_name, terminal, cycle, no_alias, out_of_fuel, resolve_alias, is_known, alias_target,
  alias_end, check_alias, validate_aliases,
}
use rapidrouter.Config.Cycles.{Follows, Ends, resolve_alias-Ends}

module _ {P : Type 0} (raw : RawConfig) (providers : Map P) where
  -- A resolved alias: its chain leads to a text that is no alias and names a model of a known provider.
  abbrev pub Resolved : String → String → TargetModel → Type 0
  Resolved name written target =
      (get raw.providers name ≡ none)
      × ((text : String) × Follows raw.aliases name text
          × (get raw.aliases text ≡ none)
          × (parse_target text ≡ some target))
      × (is_known raw providers target.provider ≡ true)

  alias_target-Accepts :
      (name text : String)
      → Accepts (alias_target raw providers name (parse_target text))
      → (t : TargetModel) × ((alias_target raw providers name (parse_target text)).1 ≡ some t)
        × (parse_target text ≡ some t)
        × (is_known raw providers t.provider ≡ true)
  unfolding alias_target
  alias_target-Accepts name text accepted = elim (Option-cases (parse_target text)) [
    | inl malformed ↦ absurd (ground arith)
    | inr (t, parsed) ↦ elim (Bool-cases (is_known raw providers t.provider)) [
      | inl known ↦ (t, ground arith, parsed, known)
      | inr unknown ↦ absurd (ground arith)
    ]
  ]

  alias_end-Accepts :
      (name written : String) (end : AliasEnd)
      → get raw.providers name ≡ none
      → Ends raw.aliases name end
      → Accepts (alias_end raw providers name end)
      → (t : TargetModel) × ((alias_end raw providers name end).1 ≡ some t)
        × Resolved name written t
  unfolding alias_end
  alias_end-Accepts name written (terminal text) free (led, last) accepted =
      let (t, made, parsed, known) = alias_target-Accepts name text accepted in
      (t, made, (free, (text, led, last, parsed), known))
  alias_end-Accepts name written (cycle at) free around accepted = absurd (ground arith)
  alias_end-Accepts name written no_alias free h accepted = elim h [ ]
  alias_end-Accepts name written out_of_fuel free h accepted = elim h [ ]

  check_alias-Accepts :
      (name written : String)
      → is_some (get raw.aliases name) ≡ true
      → Accepts (check_alias raw providers name written)
      → (t : TargetModel) × ((check_alias raw providers name written).1 ≡ some t)
        × Resolved name written t
  unfolding check_alias
  check_alias-Accepts name written there accepted = elim (Option-cases (get raw.providers name)) [
    | inr (p, taken) ↦ absurd (ground arith)
    | inl free ↦
        let end = resolve_alias (suc (length raw.aliases)) raw.aliases [] name in
        let same : check_alias raw providers name written ≡ alias_end raw providers name end =
          rw free refl in
        let (t, made, resolved) =
          alias_end-Accepts name written end free (resolve_alias-Ends raw.aliases name there)
            (subst Accepts same accepted) in
        (t, ap (λ r. r.1) same ∙ made, resolved)
  ]

  no_alias_end :
      (name : String)
      → get raw.aliases name ≡ none
      → resolve_alias (suc (length raw.aliases)) raw.aliases [] name ≡ no_alias
  unfolding resolve_alias has_name
  no_alias_end name missing = rw missing refl

  check_alias-made :
      (name written : String)
      → Accepts (check_alias raw providers name written)
      → (t : TargetModel) × ((check_alias raw providers name written).1 ≡ some t)
        × Resolved name written t
  unfolding check_alias alias_end
  check_alias-made name written accepted = elim (Bool-cases (is_some (get raw.aliases name))) [
    | inl there ↦ check_alias-Accepts name written there accepted
    | inr absent ↦
        let missing : get raw.aliases name ≡ none = ground arith in
        let lost = no_alias_end name missing in absurd (ground arith)
  ]

  -- An accepted section of aliases is carried over whole: it has the aliases of the document and no
  -- others, none with the name of a provider, and each is the model of a provider of the document that
  -- its chain ends at. The names of the aliases are distinct.
  pub validate_aliases-Matches :
      (name : String)
      → HasDistinctNames raw.aliases
      → Accepts (validate_aliases raw providers)
      → Matches (Resolved name) (get raw.aliases name) (get (validate_aliases raw providers).1 name)
  unfolding validate_aliases
  validate_aliases-Matches name distinct accepted =
      validate_each-Matches (check_alias raw providers) Resolved check_alias-made raw.aliases name
        distinct accepted

  known_of :
      (name : String) (written : Option String) (t : TargetModel)
      → Matches (Resolved name) written (some t)
      → is_known raw providers t.provider ≡ true
  known_of name none t h = elim h [ ]
  known_of name (some w) t (free, chain, known) = known

  pub validate_aliases-known :
      (name : String) (t : TargetModel)
      → HasDistinctNames raw.aliases
      → Accepts (validate_aliases raw providers)
      → get (validate_aliases raw providers).1 name ≡ some t
      → is_known raw providers t.provider ≡ true
  validate_aliases-known name t distinct accepted found = known_of name (get raw.aliases name) t (
      subst (Matches (Resolved name) (get raw.aliases name)) found
        (validate_aliases-Matches name distinct accepted))
