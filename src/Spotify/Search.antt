-- ===== src/Spotify/Search.antt =====
-- src/spotify/parsing.rs: `find_value_by_key` against the list of every match.
use mathlib.Core.List.{◌++◌}
use togewire.Prelude.{◌≡◌, refl, Option, none, some, List, [], ◌∷◌, Text}
use togewire.Types.{or}
use togewire.Spotify.Json.{
  Value, Items, Fields, null, boolean, number, string, array, object, nil, cons, end, field, member,
  find_value_by_key, find_in_fields, find_in_items,
}

abbrev pub head : List Value → Option Value
head [] = none
head (v ∷ vs) = some v

abbrev pub option_list : Option Value → List Value
option_list none = []
option_list (some v) = v ∷ []

-- Every value under `key`, in the order of the search: an object's own first, then those below.
unfoldable mutual
  pub matches : Text → Value → List Value
  matches key (object fs) = option_list (member key fs) ++ field_matches key fs
  matches key (array xs) = item_matches key xs
  matches key v = []

  pub field_matches : Text → Fields → List Value
  field_matches key end = []
  field_matches key (field j v fs) = matches key v ++ field_matches key fs

  pub item_matches : Text → Items → List Value
  item_matches key nil = []
  item_matches key (cons v xs) = matches key v ++ item_matches key xs

head-append : (xs ys : List Value) → head (xs ++ ys) ≡ or (head xs) (head ys)
head-append [] ys = refl
head-append (x ∷ xs) ys = refl

head_option : (o : Option Value) → head (option_list o) ≡ o
head_option none = refl
head_option (some v) = refl

mutual
  unfolding find_value_by_key matches

  found : (key : Text) (v : Value) → find_value_by_key key v ≡ head (matches key v)
  found key (object fs) =
      rw
        (
          head-append (option_list (member key fs)) (field_matches key fs),
          head_option (member key fs),
          found_in_fields key fs,
        )
        refl
  found key (array xs) = found_in_items key xs
  found key null = refl
  found key (boolean b) = refl
  found key (number n) = refl
  found key (string s) = refl

  found_in_fields : (key : Text) (fs : Fields) → find_in_fields key fs ≡ head (field_matches key fs)
  found_in_fields key end = refl
  found_in_fields key (field j v fs) =
      rw (head-append (matches key v) (field_matches key fs), found key v, found_in_fields key fs)
        refl

  found_in_items : (key : Text) (xs : Items) → find_in_items key xs ≡ head (item_matches key xs)
  found_in_items key nil = refl
  found_in_items key (cons v xs) =
      rw (head-append (matches key v) (item_matches key xs), found key v, found_in_items key xs)
        refl

-- The search for a key gives the first of all the values that stand under that key anywhere in a
-- JSON value, an object's own key before those of its parts, and nothing only if there are none.
pub find_value_by_key-head :
    (key : Text) (v : Value) → find_value_by_key key v ≡ head (matches key v)
find_value_by_key-head key v = found key v
