-- ===== src/Togedemon/PipeWire.antt =====
-- src/bin/togedemon.rs: which node of `pw-dump` is Spotify's stream.
use togewire.Prelude.{
  ℕ, ◌-◌, ◌^◌, Bool, false, not, ◌&&◌, ◌||◌, Option, none, some, List, [], ◌∷◌, Text, ◌=?◌,
  if◌then◌else◌, leb, ◌==◌, codes,
}
use togewire.Prelude.Words.{u64_modulus}
use togewire.Prelude.Decimal.{decimal}
use togewire.Config.{contains}
use togewire.Types.{is_empty, or}
use togewire.Spotify.Json.{Value, and_then, as_str, get_member, value_as_u64}
use togewire.Spotify.Client.{contains_text}
use togewire.Spotify.Requests.{parse_u64}

unfoldable pub pw_type : Value → Option Text
pw_type obj = and_then (get_member (codes "type") obj) as_str

unfoldable pub pw_props : Value → Option Value
pw_props obj = and_then (get_member (codes "info") obj) (get_member (codes "props"))

abbrev text_or_empty : Option Text → Text
text_or_empty none = []
text_or_empty (some s) = s

unfoldable pub pw_str : Value → Text → Text
pw_str props key = text_or_empty (and_then (get_member key props) as_str)

abbrev or_max : Option ℕ → ℕ
or_max none = u64_modulus - 1
or_max (some n) = n

-- A number, or a text that reads as one; `u64::MAX` for anything else.
unfoldable pub pw_u64 : Value → Text → ℕ
unfolding parse_u64
pw_u64 props key =
    or_max
      (and_then (get_member key props) (λ v. or (value_as_u64 v) (and_then (as_str v) parse_u64)))

unfoldable pub contains_number : ℕ → List ℕ → Bool
contains_number n [] = false
contains_number n (m ∷ ms) = m == n || contains_number n ms

abbrev pub is_text : Text → Option Text → Bool
is_text s none = false
is_text s (some t) = s =? t

-- `lower` is the standard library's conversion to lower case, `pids` the processes of Spotify.
module _ (lower : Text → Text) (pids : List Text) where
  unfoldable pub is_spotify_props : Value → Bool
  unfolding pw_str pw_u64
  is_spotify_props props =
      contains_text (codes "spotify") (lower (pw_str props (codes "application.process.binary")))
      || contains_text (codes "spotify") (lower (pw_str props (codes "application.name")))
      || contains pids (decimal (pw_u64 props (codes "application.process.id")))

  abbrev object_id : Value → Option ℕ
  object_id obj = and_then (get_member (codes "id") obj) value_as_u64

  -- The identifier of an object that is a client of Spotify.
  unfoldable pub client_of : Value → Option ℕ
  unfolding pw_type pw_props is_spotify_props
  client_of obj =
      if is_text (codes "PipeWire:Interface:Client") (pw_type obj)
      then and_then (pw_props obj) (λ props. if is_spotify_props props then object_id obj else none)
      else none

  unfoldable pub spotify_client_ids : List Value → List ℕ
  unfolding client_of
  spotify_client_ids [] = []
  spotify_client_ids (obj ∷ objects) =
      let rest = spotify_client_ids objects in
      elim (client_of obj) [ none ↦ rest | some id ↦ id ∷ rest ]

  -- The identifier of a node that plays for one of the clients, or is Spotify's itself.
  unfoldable pub node_of : List ℕ → Value → Option ℕ
  unfolding pw_type pw_props is_spotify_props contains_number
  node_of clients obj =
      if is_text (codes "PipeWire:Interface:Node") (pw_type obj)
      then and_then (pw_props obj) (λ props.
        let media_class = pw_str props (codes "media.class") in
        if not (is_empty media_class) && not (contains_text (codes "Stream/Output") media_class)
        then none
        else if is_spotify_props props || contains_number (pw_u64 props (codes "client.id")) clients
        then object_id obj
        else none)
      else none

  unfoldable pub first_node : List ℕ → List Value → Option ℕ
  unfolding node_of
  first_node clients [] = none
  first_node clients (obj ∷ objects) =
      let rest = first_node clients objects in or (node_of clients obj) rest

  -- The first such node, if its identifier fits 32 bits.
  unfoldable pub find_spotify_pw_node : List Value → Option ℕ
  unfolding first_node spotify_client_ids
  find_spotify_pw_node objects =
      and_then (first_node (spotify_client_ids objects) objects)
        (λ id. if leb id (2 ^ 32 - 1) then some id else none)
