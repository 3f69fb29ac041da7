-- ===== src/Vkey/Table.antt =====
-- crates/router-core/src/vkey.rs, `VkTable`: the table of keys, built anew from their definitions, and the
-- check of a presented token.
use Prim.Native.String.{String}
use rapidrouter.Prelude.{
  ℕ, Bool, false, not, Option, none, some, List, [], ◌∷◌, leb, if◌then◌else◌, max, Map, get, insert,
  length, is_empty as no_entries,
}
use rapidrouter.Vkey.Token.{parse}
use rapidrouter.Vkey.Runtime.{VirtualKeyDef, VkRuntime, new_runtime, verify_secret}

pub data VkReject : Type 0 where
  unknown bad_secret disabled expired : VkReject

pub data Verified : Type 0 where
  accepted : VkRuntime → Verified
  rejected : VkReject → Verified

pub record VkTable : Type 0 where
  pub by_id : Map VkRuntime
  pub shares : ℕ

unfoldable pub known : Option VkTable → String → Option VkRuntime
known none id = none
known (some t) id = get t.by_id id

unfoldable pub insert_all : List VirtualKeyDef → Option VkTable → ℕ → Map VkRuntime → Map VkRuntime
unfolding known
insert_all [] prev shares by_id = by_id
insert_all (def ∷ defs) prev shares by_id =
    insert_all defs prev shares (insert by_id def.id (new_runtime def (known prev def.id) shares))

unfoldable pub build_with_shares : List VirtualKeyDef → Option VkTable → ℕ → VkTable
unfolding insert_all
build_with_shares defs prev shares = record {
  by_id = insert_all defs prev shares [];
  shares = max shares 1;
}

unfoldable pub build : List VirtualKeyDef → Option VkTable → VkTable
unfolding build_with_shares
build defs prev = build_with_shares defs prev 1

unfoldable pub get_key : VkTable → String → Option VkRuntime
get_key t id = get t.by_id id

unfoldable pub is_empty : VkTable → Bool
is_empty t = no_entries t.by_id

unfoldable pub count_keys : VkTable → ℕ
count_keys t = length t.by_id

unfoldable pub is_expired : Option ℕ → ℕ → Bool
is_expired none unix_ms = false
is_expired (some exp) unix_ms = leb exp unix_ms

module _ (digest : String → List ℕ) where
  unfoldable pub verify_runtime : Option VkRuntime → String → ℕ → Verified
  unfolding is_expired
  verify_runtime none secret unix_ms = rejected unknown
  verify_runtime (some rt) secret unix_ms =
      if not (verify_secret digest rt secret unix_ms)
      then rejected bad_secret
      else if not rt.def.enabled
      then rejected disabled
      else if is_expired rt.def.expires_ms unix_ms
      then rejected expired
      else accepted rt

  unfoldable pub verify_parsed : VkTable → Option (String × String) → ℕ → Verified
  unfolding verify_runtime
  verify_parsed t none unix_ms = rejected unknown
  verify_parsed t (some (id, secret)) unix_ms = verify_runtime (get t.by_id id) secret unix_ms

  unfoldable pub verify : VkTable → String → ℕ → Verified
  unfolding verify_parsed
  verify t token unix_ms = verify_parsed t (parse token) unix_ms
