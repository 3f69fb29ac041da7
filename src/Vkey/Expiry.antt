-- ===== src/Vkey/Expiry.antt =====
-- crates/router-core/src/vkey.rs, `parse_rfc3339_utc_ms` and `days_from_civil`: the timestamps of a key's
-- expiry. A text is the list of its code points. A year before 0 cannot be written, since `-` separates
-- the parts; the arithmetic is that of i64 and u64, which wrap.
use Prim.Native.String.{String}
use rapidrouter.Prelude.{
  ℕ, ◌+◌, ◌-◌, ◌*◌, ◌/◌, ◌%◌, Bool, not, ◌&&◌, ◌||◌, Option, none, some, List, [], ◌∷◌, ltb, leb,
  ◌==◌, if◌then◌else◌, all_of, take, length, is_empty, codes, u64_mod, u64_max,
}

-- `str::split`, `split_once` and `strip_suffix` at one character.
unfoldable pub split : ℕ → List ℕ → List (List ℕ)
split at [] = [] ∷ []
split at (c ∷ rest) = elim (split at rest) [
  | [] ↦ [] ∷ []
  | part ∷ parts ↦ if c == at then [] ∷ part ∷ parts else (c ∷ part) ∷ parts
]

split_first : ℕ → List ℕ → Option (List ℕ × List ℕ)
split_first at [] = none
split_first at (c ∷ rest) =
    let later = split_first at rest in
    if c == at
    then some ([], rest)
    else elim later [ none ↦ none | some (before, after) ↦ some (c ∷ before, after) ]

strip_suffix : ℕ → List ℕ → Option (List ℕ)
strip_suffix at [] = none
strip_suffix at (c ∷ []) = if c == at then some [] else none
strip_suffix at (c ∷ d ∷ rest) = elim (strip_suffix at (d ∷ rest)) [
  | none ↦ none
  | some before ↦ some (c ∷ before)
]

is_digit : ℕ → Bool
is_digit c = leb 48 c && leb c 57

digits_value : ℕ → List ℕ → ℕ
digits_value acc [] = acc
digits_value acc (c ∷ rest) = digits_value (acc * 10 + (c - 48)) rest

unsigned : ℕ → List ℕ → Option ℕ
unfolding is_digit digits_value
unsigned limit digits =
    if is_empty digits || not (all_of is_digit digits)
    then none
    else if ltb limit (digits_value 0 digits)
    then none
    else some (digits_value 0 digits)

-- `str::parse` of an integer up to the limit: digits, after a `+` if there is one.
unfoldable pub parse_up_to : ℕ → List ℕ → Option ℕ
unfolding unsigned
parse_up_to limit [] = none
parse_up_to limit (c ∷ rest) = if c == 43 then unsigned limit rest else unsigned limit (c ∷ rest)

infixl 5 ◌>>=◌
abbrev ◌>>=◌ : {A B : Type 0} → Option A → (A → Option B) → Option B
none >>= f = none
some a >>= f = f a

three : List (List ℕ) → Option (List ℕ × List ℕ × List ℕ)
three (a ∷ b ∷ c ∷ []) = some (a, b, c)
three _ = none

-- `days_from_civil` of a year from 0 on; `none` before 1970-01-01. The day of a year that starts in March.
unfoldable pub days_from_civil : ℕ → ℕ → ℕ → Option ℕ
days_from_civil year month day =
    let place = if ltb 2 month then month - 3 else month + 9 in
    let doy = (153 * place + 2) / 5 + day - 1 in
    let y = if leb month 2 then year - 1 else year in
    let yoe = y % 400 in
    let doe = yoe * 365 + yoe / 4 - yoe / 100 + doy in
    let days = (y / 400 * 146097 + doe + u64_mod - 719468) % u64_mod in
    if (leb month 2 && year == 0) || leb 9223372036854775808 days then none else some days

milliseconds : List ℕ → Option ℕ
unfolding is_digit digits_value
milliseconds [] = some 0
milliseconds frac =
    let digits = take 3 frac in
    if not (all_of is_digit digits)
    then none
    else if length digits == 1
    then some (digits_value 0 digits * 100)
    else if length digits == 2
    then some (digits_value 0 digits * 10)
    else some (digits_value 0 digits)

guard : Bool → Option (Unit {0})
guard holds = if holds then some tt else none

date_days : List ℕ → Option ℕ
unfolding split parse_up_to three days_from_civil guard
date_days date = do
  (y, m, d) ← three (split 45 date)
  year ← parse_up_to 9223372036854775807 y
  month ← parse_up_to 4294967295 m
  day ← parse_up_to 4294967295 d
  _ ← guard (leb 1 month && leb month 12 && leb 1 day && leb day 31)
  days_from_civil year month day

whole_and_fraction : List ℕ → List ℕ × List ℕ
unfolding split_first
whole_and_fraction time = elim (split_first 46 time) [
  | none ↦ (time, [])
  | some (whole, frac) ↦ (whole, frac)
]

time_ms : List ℕ → Option ℕ
unfolding split parse_up_to three whole_and_fraction milliseconds guard
time_ms time = do
  (h, m, s) ← three (split 58 (whole_and_fraction time).0)
  hour ← parse_up_to u64_max h
  minute ← parse_up_to u64_max m
  second ← parse_up_to u64_max s
  _ ← guard (leb hour 23 && leb minute 59 && leb second 60)
  millis ← milliseconds (whole_and_fraction time).1
  some (hour * 3600000 + minute * 60000 + second * 1000 + millis)

unfoldable pub parse_rfc3339_utc_ms : String → Option ℕ
unfolding strip_suffix split_first date_days time_ms
parse_rfc3339_utc_ms s = do
  stripped ← strip_suffix 90 (codes s)
  (date, time) ← split_first 84 stripped
  ms ← time_ms time
  days ← date_days date
  some ((days * 86400000 + ms) % u64_mod)
