-- ===== src/Spotify/Json.antt =====
-- src/spotify/parsing.rs: JSON values and the readers of a single value. `Value` has the variants of
-- `serde_json::Value`; of a number that is no integer only that is kept.
use togewire.Prelude.{
  ℕ, ◌+◌, ◌-◌, Bool, true, false, not, ◌||◌, Option, none, some, List, [], ◌∷◌, Text, ◌=?◌,
  if◌then◌else◌, leb, ◌==◌, codes, map,
}
use togewire.Prelude.Int.{ℤ, pos, negsuc, ltb_ℤ}
use togewire.Prelude.Words.{i64_max, as_i64}
use togewire.Prelude.Decimal.{digits, magnitude, at_most}
use togewire.Config.{trim}
use togewire.Server.Addresses.{to_ascii_lowercase}
use togewire.Types.{or, is_empty}

pub data Number : Type 0 where
  unsigned : ℕ → Number
  negative : ℕ → Number
  float : Number

mutual
  pub data Value : Type 0 where
    null : Value
    boolean : Bool → Value
    number : Number → Value
    string : Text → Value
    array : Items → Value
    object : Fields → Value

  pub data Items : Type 0 where
    nil : Items
    cons : Value → Items → Items

  pub data Fields : Type 0 where
    end : Fields
    field : Text → Value → Fields → Fields

-- `and_then`
abbrev pub and_then {ℓ κ} : {A : Type ℓ} {B : Type κ} → Option A → (A → Option B) → Option B
and_then none f = none
and_then (some a) f = f a

-- `Option::filter`
abbrev pub filtered {ℓ} : {A : Type ℓ} → (A → Bool) → Option A → Option A
filtered p none = none
filtered p (some a) = if p a then some a else none

-- `Map::get`, `Value::get` by a name, and the views of a value.
unfoldable pub member : Text → Fields → Option Value
member k end = none
member k (field j v fs) = let rest = member k fs in if j =? k then some v else rest

unfoldable pub get_member : Text → Value → Option Value
get_member k (object fs) = member k fs
get_member k v = none

abbrev pub as_str : Value → Option Text
as_str (string s) = some s
as_str v = none

abbrev pub as_object : Value → Option Fields
as_object (object fs) = some fs
as_object v = none

unfoldable pub elements : Items → List Value
elements nil = []
elements (cons x xs) = x ∷ elements xs

unfoldable pub as_array : Value → Option (List Value)
as_array (array xs) = some (elements xs)
as_array v = none

unfoldable pub number_as_i64 : Number → Option ℤ
number_as_i64 (unsigned n) = if leb n i64_max then some (pos n) else none
number_as_i64 (negative n) = some (negsuc n)
number_as_i64 float = none

unfoldable pub number_as_u64 : Number → Option ℕ
number_as_u64 (unsigned n) = some n
number_as_u64 _ = none

abbrev pub value_as_u64 : Value → Option ℕ
value_as_u64 (number n) = number_as_u64 n
value_as_u64 v = none

-- `str::parse` into a signed integer of the given greatest value: a sign, then digits.
abbrev pub negated : ℕ → ℤ
negated n = if n == 0 then pos 0 else negsuc (n - 1)

unfoldable pub parse_int : ℕ → Text → Option ℤ
unfolding digits at_most
parse_int limit [] = none
parse_int limit (c ∷ s) =
    if c == b'-'
    then and_then (at_most (limit + 1) (magnitude s)) (λ n. some (negated n))
    else and_then (at_most limit (magnitude (if c == b'+' then s else c ∷ s))) (λ n. some (pos n))

unfoldable pub value_as_i64 : Value → Option ℤ
unfolding number_as_i64 number_as_u64 parse_int
value_as_i64 (number n) = or (number_as_i64 n) (and_then (number_as_u64 n) (λ u. some (as_i64 u)))
value_as_i64 (string s) = parse_int i64_max (trim s)
value_as_i64 v = none

abbrev truth : Text → Option Bool
truth s =
    if (s =? codes "true") || s =? codes "1"
    then some true
    else if (s =? codes "false") || s =? codes "0"
    then some false
    else none

abbrev is_zero : ℤ → Bool
is_zero (pos n) = n == 0
is_zero (negsuc n) = false

unfoldable pub value_as_bool : Value → Option Bool
unfolding to_ascii_lowercase number_as_i64
value_as_bool (boolean b) = some b
value_as_bool (string s) = truth (map to_ascii_lowercase (trim s))
value_as_bool (number n) = and_then (number_as_i64 n) (λ v. some (not (is_zero v)))
value_as_bool v = none

-- Trimmed, non-empty string value.
unfoldable pub nonempty_str : Option Value → Option Text
nonempty_str v =
    filtered (λ s. not (is_empty s)) (and_then (and_then v as_str) (λ s. some (trim s)))

-- `find_map` over a list.
unfoldable pub find_map {ℓ κ} : {A : Type ℓ} {B : Type κ} → (A → Option B) → List A → Option B
find_map f [] = none
find_map f (a ∷ as') = let rest = find_map f as' in or (f a) rest

-- `key` at the top level, else the first match anywhere below.
unfoldable mutual
  pub find_value_by_key : Text → Value → Option Value
  find_value_by_key key (object fs) = or (member key fs) (find_in_fields key fs)
  find_value_by_key key (array xs) = find_in_items key xs
  find_value_by_key key v = none

  pub find_in_fields : Text → Fields → Option Value
  find_in_fields key end = none
  find_in_fields key (field j v fs) = or (find_value_by_key key v) (find_in_fields key fs)

  pub find_in_items : Text → Items → Option Value
  find_in_items key nil = none
  find_in_items key (cons v xs) = or (find_value_by_key key v) (find_in_items key xs)

-- First of `keys` present that reads as an integer.
unfoldable pub find_i64 : Value → List Text → Option ℤ
unfolding find_map
find_i64 v keys = find_map (λ k. and_then (find_value_by_key k v) value_as_i64) keys

abbrev pub not_negative : ℤ → ℤ
not_negative a = if ltb_ℤ a (pos 0) then pos 0 else a
