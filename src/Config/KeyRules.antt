-- ===== src/Config/KeyRules.antt =====
-- What the keys of an accepted provider hold: the proofs about the keys of a provider in
-- crates/router-core/src/config/validate.rs.
use Prim.Native.String.{String}
use mathlib.Core.List.{append_assoc, append-nil}
use rapidrouter.Prelude.{
  ℕ, suc, ◌≡◌, refl, sym, ◌∙◌, true, false, not, Option, none, some, List, [], ◌∷◌, ◌++◌, All,
  Pairs, no_text, str_eq, arith, Bool-cases, Option-cases, inl, inr,
}
use rapidrouter.Config.Raw.{RawKey, RawKeyLimits}
use rapidrouter.Config.Checked.{Part, field, nth, Accepts, append-eq-nil, complain_if-Accepts}
use rapidrouter.Config.Secrets.{Sources, Secret, refused, secret, resolve_secret}
use rapidrouter.Config.Aliases.{has_name}
use rapidrouter.Config.Numbers.{is_positive}
use rapidrouter.Config.Keys.{
  KeySettings, is_zero, check_limits, check_defaults, or_default, default_rpm, default_tpm,
  default_concurrency, key_of, check_name, resolved_key, check_key, validate_keys,
}

-- None of three ceilings is zero.
abbrev pub IsOpen : Option ℕ → Option ℕ → Option ℕ → Type 0
IsOpen rpm tpm slots = (is_zero rpm ≡ false) × (is_zero tpm ≡ false) × (is_zero slots ≡ false)

check_limits-Accepts :
    (place : List Part) (rpm tpm slots : Option ℕ)
    → Accepts (check_limits place rpm tpm slots)
    → IsOpen rpm tpm slots
unfolding check_limits
check_limits-Accepts place rpm tpm slots clean =
    let (first, rest) = append-eq-nil _ _ clean in
    let (second, third) = append-eq-nil _ _ rest in
    (
      complain_if-Accepts (is_zero rpm) _ _ first,
      complain_if-Accepts (is_zero tpm) _ _ second,
      complain_if-Accepts (is_zero slots) _ _ third,
    )

-- No key of a pool has the name of another.
abbrev pub HasDistinctKeys : List KeySettings → Type 0
HasDistinctKeys [] = Unit {0}
HasDistinctKeys (k ∷ rest) =
    All (λ l. str_eq k.key.name l.key.name ≡ false) rest × HasDistinctKeys rest

abbrev AreNew : List String → List KeySettings → Type 0
AreNew names = All (λ k. has_name names k.key.name ≡ false)

AreNew-tail :
    (name : String) (names : List String) (keys : List KeySettings)
    → AreNew (name ∷ names) keys
    → AreNew names keys × All (λ l. str_eq name l.key.name ≡ false) keys
unfolding has_name
AreNew-tail name names [] new = (tt, tt)
AreNew-tail name names (k ∷ keys) new =
    let (rest, others) = AreNew-tail name names keys new.1 in
    ((ground arith, rest), (ground arith, others))

check_name-Accepts :
    (place : List Part) (names : List String) (name : String)
    → Accepts (check_name place names name)
    → (no_text name ≡ false)
      × (has_name names name ≡ false)
      × ((check_name place names name).1 ≡ name ∷ names)
unfolding check_name
check_name-Accepts place names name clean = elim (Bool-cases (no_text name)) [
  | inl nameless ↦ absurd (ground arith)
  | inr named ↦ elim (Bool-cases (has_name names name)) [
    | inl again ↦ absurd (ground arith)
    | inr new ↦ (named, new, rw (named, new) refl)
  ]
]

resolved_key-Accepts :
    (place : List Part) (defaults : Option RawKeyLimits) (keys : List KeySettings) (rk : RawKey)
    (found : Secret)
    → Accepts (resolved_key place defaults keys rk found)
    → (value : String) × (found ≡ secret value)
      × ((resolved_key place defaults keys rk found).1 ≡ keys ++ (key_of defaults rk value ∷ []))
unfolding resolved_key
resolved_key-Accepts place defaults keys rk (secret value) clean = (value, refl, refl)
resolved_key-Accepts place defaults keys rk (refused why) clean = absurd (ground arith)

or_default-is_zero :
    (own default : Option ℕ)
    → is_zero own ≡ false
    → is_zero default ≡ false
    → is_zero (or_default own default) ≡ false
or_default-is_zero none default h h' = h'
or_default-is_zero (some limit) default h h' = h

-- A ceiling is the key's own if it has one, else the pool's, if there is one.
abbrev pub Inherits : (RawKeyLimits → Option ℕ) → Option RawKeyLimits → Option ℕ → Option ℕ → Type 0
Inherits pick defaults (some own) made = made ≡ some own
Inherits pick (some d) none made = made ≡ pick d
Inherits pick none none made = made ≡ none

key_of-rpm :
    (defaults : Option RawKeyLimits) (rk : RawKey) (value : String)
    → Inherits (λ d. d.rpm) defaults rk.rpm (key_of defaults rk value).key.rpm
unfolding key_of
key_of-rpm defaults rk value = elim (Option-cases rk.rpm) [
  | inr (own, has) ↦ rw has refl
  | inl lacks ↦ elim (Option-cases defaults) [
    | inr (d, given) ↦ rw (lacks, given) refl
    | inl absent ↦ rw (lacks, absent) refl
  ]
]

key_of-tpm :
    (defaults : Option RawKeyLimits) (rk : RawKey) (value : String)
    → Inherits (λ d. d.tpm) defaults rk.tpm (key_of defaults rk value).key.tpm
unfolding key_of
key_of-tpm defaults rk value = elim (Option-cases rk.tpm) [
  | inr (own, has) ↦ rw has refl
  | inl lacks ↦ elim (Option-cases defaults) [
    | inr (d, given) ↦ rw (lacks, given) refl
    | inl absent ↦ rw (lacks, absent) refl
  ]
]

key_of-slots :
    (defaults : Option RawKeyLimits) (rk : RawKey) (value : String)
    → Inherits
        (λ d. d.max_concurrency)
        defaults
        rk.max_concurrency
        (key_of defaults rk value).key.max_concurrency
unfolding key_of
key_of-slots defaults rk value = elim (Option-cases rk.max_concurrency) [
  | inr (own, has) ↦ rw has refl
  | inl lacks ↦ elim (Option-cases defaults) [
    | inr (d, given) ↦ rw (lacks, given) refl
    | inl absent ↦ rw (lacks, absent) refl
  ]
]

-- A key as written: its name, weight, models and service, its secret resolved, its own ceilings before the
-- pool's, none of them zero, and a positive finite weight.
abbrev pub WrittenKey : Sources → Option RawKeyLimits → RawKey → KeySettings → Type 0
WrittenKey s defaults rk k =
    (resolve_secret s rk.value ≡ secret k.secret)
    × (k.key.name ≡ rk.name)
    × (k.key.weight ≡ rk.weight)
    × (k.key.models ≡ rk.models)
    × (k.key.tenant ≡ rk.tenant)
    × Inherits (λ d. d.rpm) defaults rk.rpm k.key.rpm
    × Inherits (λ d. d.tpm) defaults rk.tpm k.key.tpm
    × Inherits (λ d. d.max_concurrency) defaults rk.max_concurrency k.key.max_concurrency
    × (no_text rk.name ≡ false)
    × (is_positive rk.weight ≡ true)
    × IsOpen k.key.rpm k.key.tpm k.key.max_concurrency

module _ (s : Sources) (place : List Part) (defaults : Option RawKeyLimits)
    (open_defaults : IsOpen
      (default_rpm defaults)
      (default_tpm defaults)
      (default_concurrency defaults)) where
  check_key-Accepts :
      (i : ℕ) (keys : List KeySettings) (rk : RawKey)
      → no_text rk.name ≡ false
      → Accepts (check_key s place defaults i keys rk)
      → (k : KeySettings) × ((check_key s place defaults i keys rk).1 ≡ keys ++ (k ∷ []))
        × (k.key.name ≡ rk.name)
        × WrittenKey s defaults rk k
  unfolding check_key key_of
  check_key-Accepts i keys rk named clean =
      let place' = place ++ (field "keys" ∷ nth i ∷ []) in
      let (weighed, rest) = append-eq-nil _ _ clean in
      let positive = complain_if-Accepts (not (is_positive rk.weight)) _ _ weighed in
      let (limited, resolved) = append-eq-nil _ _ rest in
      let (rpm, tpm, slots) =
        check_limits-Accepts place' rk.rpm rk.tpm rk.max_concurrency limited in
      let (value, found, made) =
        resolved_key-Accepts place' defaults keys rk (resolve_secret s rk.value) resolved in
      (
        key_of defaults rk value,
        made,
        refl,
        (
          found,
          refl,
          refl,
          refl,
          refl,
          key_of-rpm defaults rk value,
          key_of-tpm defaults rk value,
          key_of-slots defaults rk value,
          named,
          ground arith,
          (
            or_default-is_zero rk.rpm (default_rpm defaults) rpm open_defaults.0,
            or_default-is_zero rk.tpm (default_tpm defaults) tpm open_defaults.1,
            or_default-is_zero rk.max_concurrency (default_concurrency defaults) slots
                open_defaults.2,
          ),
        ),
      )

  pub validate_keys-Accepts :
      (i : ℕ) (names : List String) (keys : List KeySettings) (entries : List RawKey)
      → Accepts (validate_keys s place defaults i names keys entries)
      → (added : List KeySettings) × ((validate_keys s place defaults i names keys entries).1
          ≡ keys ++ added)
        × Pairs (WrittenKey s defaults) entries added
        × AreNew names added
        × HasDistinctKeys added
  unfolding validate_keys
  validate_keys-Accepts i names keys [] clean = ([], sym (append-nil keys), tt, tt, tt)
  validate_keys-Accepts i names keys (rk ∷ rest) clean =
      let at = place ++ (field "keys" ∷ nth i ∷ field "name" ∷ []) in
      let (clean_name, after) = append-eq-nil (check_name at names rk.name).0 _ clean in
      let (named, new, names') = check_name-Accepts at names rk.name clean_name in
      let (clean_key, after_key) = append-eq-nil (check_key s place defaults i keys rk).0 _ after in
      let (k, made, same, written) = check_key-Accepts i keys rk named clean_key in
      let clean_rest : Accepts
          (validate_keys s place defaults (suc i) (rk.name ∷ names) (keys ++ (k ∷ [])) rest) =
        rw (← names', ← made) after_key in
      let (ks, all, pairs, new', distinct) =
        validate_keys-Accepts (suc i) (rk.name ∷ names) (keys ++ (k ∷ [])) rest clean_rest in
      let (others, differ) = AreNew-tail rk.name names ks new' in
      (
        k ∷ ks,
        rw (names', made) (all ∙ append_assoc keys (k ∷ []) ks),
        (written, pairs),
        (rw same new, others),
        (rw same differ, distinct),
      )

pub check_defaults-Accepts :
    (place : List Part) (defaults : Option RawKeyLimits)
    → Accepts (check_defaults place defaults)
    → IsOpen (default_rpm defaults) (default_tpm defaults) (default_concurrency defaults)
unfolding check_defaults is_zero
check_defaults-Accepts place none clean = (refl, refl, refl)
check_defaults-Accepts place (some limits) clean =
    check_limits-Accepts (place ++ (field "key_limits" ∷ [])) limits.rpm limits.tpm
      limits.max_concurrency clean
