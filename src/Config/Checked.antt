-- ===== src/Config/Checked.antt =====
-- `ConfigError` and the list `errors` that every function of crates/router-core/src/config/validate.rs
-- pushes on: a result with the errors found on the way to it, in their order. The place of an error is
-- the path in its parts; a message is told apart by its case, its wording is not modelled.
use Prim.Native.String.{String}
use rapidrouter.Prelude.{
  ℕ, ◌≡◌, refl, Bool, true, false, Option, none, some, List, [], ◌∷◌, ◌++◌, Map, get, insert,
  str_eq, eq_iff, if◌then◌else◌, get-insert, arith, Bool-cases, inl, inr, sym, subst, ◌∙◌,
}

pub data Part : Type 0 where
  field : String → Part
  nth : ℕ → Part

pub data Message : Type 0 where
  out_of_range not_positive empty_value not_hex bad_hash bad_period bad_expiry bad_url : Message
  bad_number required not_allowed no_limit bad_choice empty_chain own_source : Message
  provider_collision alias_collision no_primary nested_group window_too_short : Message
  undeclared_service duplicate unknown_provider not_a_target unknown_scope : String → Message
  unknown_type unknown_auth unknown_retry unknown_backend : String → Message
  alias_cycle : String → Message
  empty_reference : Message
  unset unset_but_empty unreadable empty_file : String → Message
  unfinished_alias : Message

pub record ConfigError : Type 0 where
  pub place : List Part
  pub message : Message

abbrev pub Checked : Type 0 → Type 0
Checked A = List ConfigError × A

infixl 5 ◌>>=◌ ◌>>◌
abbrev pub ◌>>=◌ : {A B : Type 0} → Checked A → (A → Checked B) → Checked B
m >>= f = (m.0 ++ (f m.1).0, (f m.1).1)

abbrev pub ◌>>◌ : {B : Type 0} → Checked (Unit {0}) → Checked B → Checked B
m >> k = (m.0 ++ k.0, k.1)

abbrev pub pure : {A : Type 0} → A → Checked A
pure a = ([], a)

abbrev pub fail : {A : Type 0} → List Part → Message → A → Checked A
fail place message a = (record { place = place; message = message } ∷ [], a)

abbrev pub complain_if : Bool → List Part → Message → Checked (Unit {0})
complain_if bad place message = if bad then fail place message tt else pure tt

-- The document is clean so far.
abbrev pub Accepts : {A : Type 0} → Checked A → Type 0
Accepts m = m.0 ≡ []

pub append-eq-nil {ℓ} : {A : Type ℓ} (xs ys : List A) → xs ++ ys ≡ [] → (xs ≡ []) × (ys ≡ [])
append-eq-nil [] ys e = (refl, e)
append-eq-nil (x ∷ xs) ys e = cc

pub >>=-Accepts :
    {A B : Type 0} (m : Checked A) (f : A → Checked B)
    → Accepts (m >>= f)
    → Accepts m × Accepts (f m.1)
>>=-Accepts m f h = append-eq-nil m.0 (f m.1).0 h

pub complain_if-Accepts :
    (bad : Bool) (place : List Part) (message : Message)
    → Accepts (complain_if bad place message)
    → bad ≡ false
complain_if-Accepts true place message h = cc
complain_if-Accepts false place message h = refl

abbrev pub kept : {V : Type 0} → Map V → String → Option V → Map V
kept acc name none = acc
kept acc name (some v) = insert acc name v

pub kept-other :
    {V : Type 0} (acc : Map V) (name : String) (found : Option V) (asked : String)
    → str_eq asked name ≡ false
    → get (kept acc name found) asked ≡ get acc asked
kept-other acc name none asked other = refl
kept-other acc name (some v) asked other = get-insert acc name asked v ∙ rw other refl

-- `for (name, entry) in section`, where an entry that yields a value is inserted under its name.
unfoldable pub validate_each :
    {A V : Type 0} → (String → A → Checked (Option V)) → Map V → Map A → Checked (Map V)
validate_each check acc [] = pure acc
validate_each check acc ((name, entry) ∷ rest) = do
  found ← check name entry
  validate_each check (kept acc name found) rest

-- The names of a section are distinct, as in a BTreeMap.
abbrev pub HasDistinctNames : {A : Type 0} → Map A → Type 0
HasDistinctNames [] = Unit {0}
HasDistinctNames ((name, entry) ∷ rest) = (get rest name ≡ none) × HasDistinctNames rest

-- A section as written against its validated form: the same names, and related entries.
abbrev pub Matches : {A V : Type 0} → (A → V → Type 0) → Option A → Option V → Type 0
Matches R none none = Unit {0}
Matches R (some a) (some v) = R a v
Matches R none (some v) = ⊥
Matches R (some a) none = ⊥

module _ {A V : Type 0} (check : String → A → Checked (Option V)) (R : String → A → V → Type 0)
    (sound : (name : String) (entry : A)
      → Accepts (check name entry)
      → (v : V) × ((check name entry).1 ≡ some v) × R name entry v) where
  validate_each-other :
      (acc : Map V) (entries : Map A) (asked : String)
      → get entries asked ≡ none
      → get (validate_each check acc entries).1 asked ≡ get acc asked
  unfolding validate_each get
  validate_each-other acc [] asked absent = refl
  validate_each-other acc ((name, entry) ∷ rest) asked absent =
      elim (Bool-cases (str_eq asked name)) [
        | inl here ↦ absurd (ground arith)
        | inr elsewhere ↦
            let absent' : get rest asked ≡ none = ground arith in
            validate_each-other (kept acc name (check name entry).1) rest asked absent'
            ∙ kept-other acc name (check name entry).1 asked elsewhere
      ]

  validate_each-Matches_onto :
      (acc : Map V) (entries : Map A) (asked : String)
      → HasDistinctNames entries
      → get acc asked ≡ none
      → Accepts (validate_each check acc entries)
      → Matches (R asked) (get entries asked) (get (validate_each check acc entries).1 asked)
  unfolding validate_each get
  validate_each-Matches_onto acc [] asked distinct fresh accepted = rw fresh tt
  validate_each-Matches_onto acc ((name, entry) ∷ rest) asked distinct fresh accepted =
      let (clean, clean') = append-eq-nil (check name entry).0 _ accepted in
      let (v, made, related) = sound name entry clean in
      let acc' = kept acc name (check name entry).1 in
      elim (Bool-cases (str_eq asked name)) [
        | inl here ↦
            let absent : get rest asked ≡ none =
              subst (λ n. get rest n ≡ none) (sym ((eq_iff asked name).0 here)) distinct.0 in
            let held : get acc' asked ≡ some v =
              rw made (get-insert acc name asked v ∙ rw here refl) in
            let there = validate_each-other acc' rest asked absent ∙ held in
            rw (here, there) (subst (λ n. R n entry v) (sym ((eq_iff asked name).0 here)) related)
        | inr elsewhere ↦ rw elsewhere (
            validate_each-Matches_onto acc' rest asked distinct.1
              (kept-other acc name (check name entry).1 asked elsewhere ∙ fresh) clean')
      ]

  -- A clean section has every name of the document and no other, each with what its entry yields.
  pub validate_each-Matches :
      (entries : Map A) (asked : String)
      → HasDistinctNames entries
      → Accepts (validate_each check [] entries)
      → Matches (R asked) (get entries asked) (get (validate_each check [] entries).1 asked)
  unfolding get
  validate_each-Matches entries asked distinct accepted =
      validate_each-Matches_onto [] entries asked distinct refl accepted
