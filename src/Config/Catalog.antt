-- ===== src/Config/Catalog.antt =====
-- The catalog that crates/router-core/src/router.rs builds from a configuration names its providers only.
use Prim.Native.String.{String}
use text.Mathlib.TextEquality.{eq_iff}
use rapidrouter.Prelude.{
  ◌≡◌, sym, ap, subst, ◌∙◌, true, some, List, [], ◌∷◌, Map, get, insert, get-insert, is_some,
  str_eq, arith, Bool-cases, Option-cases, inl, inr,
}
use rapidrouter.Router.Rebuild.{
  ApiKey, Provider, list_model, list_models, listed, list_keys, catalog_of,
}

-- Names in a catalog are those of providers.
abbrev pub ListsOnly : Map Provider → Map String → Type 0
ListsOnly ps catalog =
    (model provider : String) → get catalog model ≡ some provider → is_some (get ps provider) ≡ true

list_model-ListsOnly :
    (ps : Map Provider) (catalog : Map String) (name model : String)
    → is_some (get ps name) ≡ true
    → ListsOnly ps catalog
    → ListsOnly ps (list_model catalog name model)
unfolding list_model
list_model-ListsOnly ps catalog name model there only asked provider found =
    elim (Option-cases (get catalog model)) [
      | inr (first, known) ↦
          let same : list_model catalog name model ≡ catalog = ground arith in
          only asked provider (ap (λ c. get c asked) (sym same) ∙ found)
      | inl new ↦
          let same : list_model catalog name model ≡ insert catalog model name = ground arith in
          let found' =
            sym (get-insert catalog model asked name) ∙ ap (λ c. get c asked) (sym same) ∙ found in
          elim (Bool-cases (str_eq asked model)) [
            | inl here ↦
                let at : name ≡ provider = ground arith in
                subst (λ n. is_some (get ps n) ≡ true) at there
            | inr elsewhere ↦ only asked provider (ground arith)
          ]
    ]

list_models-ListsOnly :
    (ps : Map Provider) (catalog : Map String) (name : String) (models : List String)
    → is_some (get ps name) ≡ true
    → ListsOnly ps catalog
    → ListsOnly ps (list_models catalog name models)
unfolding list_models
list_models-ListsOnly ps catalog name [] there only = only
list_models-ListsOnly ps catalog name (model ∷ rest) there only =
    list_models-ListsOnly ps (list_model catalog name model) name rest there
      (list_model-ListsOnly ps catalog name model there only)

list_keys-ListsOnly :
    (ps : Map Provider) (catalog : Map String) (name : String) (keys : List ApiKey)
    → is_some (get ps name) ≡ true
    → ListsOnly ps catalog
    → ListsOnly ps (list_keys catalog name keys)
unfolding list_keys
list_keys-ListsOnly ps catalog name [] there only = only
list_keys-ListsOnly ps catalog name (k ∷ rest) there only =
    list_keys-ListsOnly ps (list_models catalog name (listed k.models)) name rest there
      (list_models-ListsOnly ps catalog name (listed k.models) there only)

-- Every provider of the rest is one of the whole.
abbrev pub IsPart : Map Provider → Map Provider → Type 0
IsPart ps rest = (name : String) → is_some (get rest name) ≡ true → is_some (get ps name) ≡ true

pub catalog_of-ListsOnly :
    (ps rest : Map Provider) (catalog : Map String)
    → IsPart ps rest
    → ListsOnly ps catalog
    → ListsOnly ps (catalog_of catalog rest)
unfolding catalog_of get
catalog_of-ListsOnly ps [] catalog part only = only
catalog_of-ListsOnly ps ((name, p) ∷ rest) catalog part only =
    catalog_of-ListsOnly ps rest (list_keys catalog name p.keys) (λ n h. part n (ground arith))
      (list_keys-ListsOnly ps catalog name p.keys (part name (ground (arith, eq_iff name name)))
        only)
