-- ===== src/Config/ProviderRules.antt =====
-- What an accepted provider holds: the proofs about `validate_provider` and `validate_providers` of
-- crates/router-core/src/config/validate.rs.
use Prim.Native.String.{String}
use rapidrouter.Prelude.{
  ◌≡◌, refl, sym, ap, subst, ◌∙◌, false, ◌&&◌, Option, none, some, List, [], ◌∷◌, get, Pairs,
  is_empty, arith, Option-cases, inl, inr, ◌==◌,
}
use rapidrouter.Config.Raw.{RawKey, RawProvider, RawConfig}
use rapidrouter.Config.Checked.{
  Part, field, Message, Checked, ◌>>=◌, Accepts, append-eq-nil, >>=-Accepts, complain_if,
  complain_if-Accepts, HasDistinctNames, Matches, validate_each-Matches,
}
use rapidrouter.Config.Secrets.{Sources}
use rapidrouter.Config.Presets.{ProviderKind, AuthMode, by_key, unauthenticated, Preset, preset}
use rapidrouter.Config.Providers.{
  ProviderSettings, is_keyed, settings_of, kind_of, of_kind, if_clean, validate_provider,
  validate_providers,
}
use rapidrouter.Config.KeyRules.{
  WrittenKey, HasDistinctKeys, check_defaults-Accepts, validate_keys-Accepts,
}

-- A provider and its description in the document: the keys as written and in their order, no two of one
-- name, at least one unless the provider needs none, and room for at least one request.
abbrev pub WrittenProvider : Sources → RawProvider → ProviderSettings → Type 0
WrittenProvider s rp p =
    Pairs (WrittenKey s rp.key_limits) rp.keys p.keys
    × HasDistinctKeys p.keys
    × (p.auth ≡ by_key → is_empty rp.keys ≡ false)
    × (p.max_concurrency ≡ rp.max_concurrency)
    × ((rp.max_concurrency == 0) ≡ false)
    × (p.timeout_secs ≡ rp.timeout_secs)
    × ((rp.timeout_secs == 0) ≡ false)

keyed-not-empty :
    (auth : AuthMode) (keys : List RawKey) (place : List Part) (message : Message)
    → Accepts (complain_if (is_keyed auth && is_empty keys) place message)
    → auth ≡ by_key
    → is_empty keys ≡ false
keyed-not-empty by_key keys place message clean e =
    complain_if-Accepts (is_empty keys) place message clean
keyed-not-empty unauthenticated keys place message clean e = cc

settings_of-Accepts :
    (s : Sources) (place : List Part) (known : Option Preset) (rp : RawProvider)
    (kind : ProviderKind)
    → Accepts (settings_of s place known rp kind)
    → WrittenProvider s rp (settings_of s place known rp kind).1
unfolding settings_of
settings_of-Accepts s place known rp kind clean =
    let (_, after_url) = append-eq-nil _ _ clean in
    let (_, after_auth) = append-eq-nil _ _ after_url in
    let (keyed, after_keyed) = append-eq-nil _ _ after_auth in
    let (limits, after_limits) = append-eq-nil _ _ after_keyed in
    let (keys, after_keys) = append-eq-nil _ _ after_limits in
    let (slots, after_slots) = append-eq-nil _ _ after_keys in
    let (timeout, _) = append-eq-nil _ _ after_slots in
    let open_defaults = check_defaults-Accepts place rp.key_limits limits in
    let (ks, made, pairs, _, distinct) =
      validate_keys-Accepts s place rp.key_limits open_defaults 0 [] [] rp.keys keys in
    (
      subst (Pairs (WrittenKey s rp.key_limits) rp.keys) (sym made) pairs,
      subst HasDistinctKeys (sym made) distinct,
      keyed-not-empty _ rp.keys _ _ keyed,
      refl,
      complain_if-Accepts (rp.max_concurrency == 0) _ _ slots,
      refl,
      complain_if-Accepts (rp.timeout_secs == 0) _ _ timeout,
    )

if_clean-made :
    {A : Type 0} (m : Checked (Option A)) (a : A)
    → Accepts m
    → m.1 ≡ some a
    → (if_clean m).1 ≡ some a
unfolding if_clean
if_clean-made m a clean made = rw clean made

of_kind-Accepts :
    (s : Sources) (place : List Part) (known : Option Preset) (rp : RawProvider)
    (kind : ProviderKind)
    → Accepts (of_kind s place known rp (some kind))
    → (p : ProviderSettings) × ((of_kind s place known rp (some kind)).1 ≡ some p)
      × WrittenProvider s rp p
unfolding of_kind
of_kind-Accepts s place known rp kind clean =
    let (clean', _) = append-eq-nil (settings_of s place known rp kind).0 [] clean in
    ((settings_of s place known rp kind).1, refl, settings_of-Accepts s place known rp kind clean')

-- A provider whose kind cannot be told is an error.
kind_of-Accepts :
    (place : List Part) (known : Option Preset) (named : Option String)
    → Accepts (kind_of place known named)
    → (kind : ProviderKind) × ((kind_of place known named).1 ≡ some kind)
unfolding kind_of
kind_of-Accepts place (some p) none clean = (p.kind, refl)
kind_of-Accepts place none none clean = cc
kind_of-Accepts place none (some t) clean = elim (Option-cases (kind_of place none (some t)).1) [
  | inr (kind, made) ↦ (kind, made)
  | inl nothing ↦ absurd (ground arith)
]
kind_of-Accepts place (some p) (some t) clean =
    elim (Option-cases (kind_of place (some p) (some t)).1) [
      | inr (kind, made) ↦ (kind, made)
      | inl nothing ↦ absurd (ground arith)
    ]

validate_provider-Accepts :
    (s : Sources) (name : String) (rp : RawProvider)
    → Accepts (validate_provider s name rp)
    → (p : ProviderSettings) × ((validate_provider s name rp).1 ≡ some p) × WrittenProvider s rp p
unfolding validate_provider
validate_provider-Accepts s name rp clean =
    let place = field "providers" ∷ field name ∷ [] in
    let kinds = kind_of place (preset name) rp.type_name in
    let build = of_kind s place (preset name) rp in
    let whole : Accepts (kinds >>= build) = clean in
    let (clean_kind, clean_build) = >>=-Accepts kinds build whole in
    let (kind, found) = kind_of-Accepts place (preset name) rp.type_name clean_kind in
    let (p, made, written) =
      of_kind-Accepts s place (preset name) rp kind
        (subst (λ o. Accepts (build o)) found clean_build) in
    (p, if_clean-made (kinds >>= build) p whole (ap (λ o. (build o).1) found ∙ made), written)

-- An accepted section of providers is carried over whole: it has the providers of the document and no
-- others, each with its keys as written and in their order: the name, the weight, the models and the service
-- of each, the secret that the reference stands for, the key's own ceilings before those of the pool and none
-- of them zero, a positive finite weight, and no name twice. A provider whose keys are used has at least one, and has room and time for a request. The names of
-- the providers are distinct.
pub validate_providers-Matches :
    (s : Sources) (raw : RawConfig) (name : String)
    → HasDistinctNames raw.providers
    → Accepts (validate_providers s raw)
    → Matches (WrittenProvider s) (get raw.providers name) (get (validate_providers s raw).1 name)
unfolding validate_providers
validate_providers-Matches s raw name distinct clean =
    validate_each-Matches (validate_provider s) (λ n. WrittenProvider s)
      (validate_provider-Accepts s) raw.providers name distinct clean
