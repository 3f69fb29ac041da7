-- ===== src/Vkey/Examples.antt =====
-- One key in use, and the theorems about crates/router-core/src/vkey.rs there.
use Prim.Native.String.{String}
use rapidrouter.Prelude.{
  ℕ, ◌≡◌, ◌≢◌, refl, ◌↔◌, true, false, none, some, List, [], ◌∷◌, get, insert, strip_prefix,
  split_once, str_eq, if◌then◌else◌, codes, arith,
}
use rapidrouter.Vkey.Period.{daily}
use rapidrouter.Vkey.Token.{parse, full_key, decode_hash, is_hex_digit}
use rapidrouter.Vkey.Runtime.{VirtualKeyDef, VkRuntime, new_runtime, admit, budget_exhausted}
use rapidrouter.Vkey.Table.{VkTable, accepted, build_with_shares, known, verify, get_key}
use rapidrouter.Vkey.Access.{MayEnter, verify-accepted}
use rapidrouter.Vkey.Rebuild.{last_def, verify-build}
use rapidrouter.Vkey.Limits.{debit_all, admit-debit_all, budget_exhausted-debit_all}

-- A float given by its whole value.
abbrev micro : ℕ → ℕ
micro usd = usd

abbrev alice : VirtualKeyDef
alice = record {
  id = "00aaff";
  name = "alice";
  secret_hash = "blake3:0000000000000000000000000000000000000000000000000000000000000000";
  prev_secret = none;
  models = [];
  tenant = none;
  budget = some (record { usd = 500; period = daily });
  rate = some (record { rpm = some 60; tpm = some 100 });
  expires_ms = none;
  tags = [];
  enabled = true;
  created_ms = 0;
}

-- A digest that sends one secret to 32 zero bytes.
abbrev zeros : List ℕ
zeros =
    0 ∷ 0 ∷ 0 ∷ 0 ∷ 0 ∷ 0 ∷ 0 ∷ 0 ∷ 0 ∷ 0 ∷ 0 ∷ 0 ∷ 0 ∷ 0 ∷ 0 ∷ 0 ∷ 0 ∷ 0 ∷ 0 ∷ 0 ∷ 0 ∷ 0 ∷ 0 ∷ 0
    ∷ 0 ∷ 0 ∷ 0 ∷ 0 ∷ 0 ∷ 0 ∷ 0 ∷ 0 ∷ []

abbrev zero_digest : String → List ℕ
zero_digest secret = if str_eq secret "s" then zeros else []

abbrev runtime : VkRuntime
runtime = new_runtime alice none 1

abbrev table : VkTable
table = build_with_shares (alice ∷ []) none 1

alice_known : get table.by_id "00aaff" ≡ some runtime
unfolding build_with_shares get insert
alice_known = refl

verify-accepted_example : (verify zero_digest table "ck-00aaff-s" 5 ≡ accepted runtime) ↔ (
    (id : String) × (secret : String) × (parse "ck-00aaff-s" ≡ some (id, secret))
    × (get table.by_id id ≡ some runtime)
    × MayEnter zero_digest runtime secret 5)
verify-accepted_example = verify-accepted zero_digest table "ck-00aaff-s" 5 runtime

reads : parse "ck-00aaff-x" ≡ some ("00aaff", "x")
unfolding parse strip_prefix split_once codes
reads = refl

hashed : decode_hash alice.secret_hash ≡ some zeros
unfolding decode_hash codes strip_prefix
hashed = refl

verify-build_example :
    verify zero_digest (build_with_shares (alice ∷ []) (some table) 2) (full_key "00aaff" "s") 9
    ≡ accepted (new_runtime alice (known (some table) "00aaff") 2)
unfolding codes is_hex_digit last_def
verify-build_example =
    verify-build zero_digest (alice ∷ []) (some table) 2 alice "s" 9 (refl, refl) refl refl hashed
      refl (λ exp h. ground arith)

alice_last : last_def (alice ∷ []) "00aaff" ≡ some alice
unfolding last_def
alice_last = refl

alice_held : get_key table "00aaff" ≡ some runtime
unfolding get_key build_with_shares get insert
alice_held = refl

-- Two responses that cost 300 and 200.
abbrev debits : List (ℕ × ℕ × ℕ)
debits = (10, 300, 1) ∷ (20, 200, 2) ∷ []

admit-debit_all_example : (admit micro (debit_all runtime debits 0) 3 0).1 ≢ none
unfolding new_runtime
admit-debit_all_example =
    admit-debit_all micro runtime debits 0 3 (record { usd = 500; period = daily })
      (omega arith, (omega arith, tt)) refl (omega arith) (omega arith)

-- Millions of millions.
abbrev huge : ℕ → ℕ
huge usd = 2000000000000

budget_exhausted-debit_all_example : budget_exhausted huge (debit_all runtime debits 0) 0 ≡ false
unfolding new_runtime
budget_exhausted-debit_all_example =
    budget_exhausted-debit_all huge runtime debits 0 (record { usd = 500; period = daily }) refl
      (omega arith)
