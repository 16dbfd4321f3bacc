-- ===== src/Tests/SpotifyTests.antt =====
-- src/spotify.rs and src/spotify/parsing.rs at one account, one track and one reply of each kind.
use togewire.Prelude.{
  all, ◌⊎◌, ℕ, ◌+◌, ◌≤◌, true, false, Option, none, some, List, [], ◌∷◌, ◌++◌, Text, arith, ◌≡◌,
  ◌≢◌, refl, inl, codes, if◌then◌else◌, ◌=?◌, length, Bool, is_some,
}
use togewire.Prelude.Int.{ℤ, pos, ◌≤ℤ◌, ltb_ℤ, ◌+ℤ◌}
use togewire.Types.{SpotifyState}
use togewire.Config.{Process, Config, SpotifyAuth, default_config, premium}
use togewire.Spotify.Json.{
  Value, unsigned, null, boolean, number, string, array, object, nil, cons, end, field,
  find_value_by_key, find_in_fields, find_in_items, member,
}
use togewire.Spotify.Uris.{track_id_from_uri, after, track_prefix, is_alphanumeric}
use togewire.Spotify.UriLaws.{IsId, track_id_from_uri-spellings}
use togewire.TextLaws.{visible}
use togewire.Spotify.Search.{head, matches, find_value_by_key-head}
use togewire.Spotify.Client.{
  Json, Client, Response, Answer, ok, failed, access_token, refresh_oauth_token, refresh_failed,
  not_authenticated, product_state, refresh_oauth, exchange, text_of,
}
use togewire.Spotify.Requests.{send_authed_json}
use togewire.Spotify.Account.{sync_librespot_for_subscription, plan_is_premium}
use togewire.Spotify.AccountLaws.{sync_librespot_for_subscription-confirmed}
use togewire.Spotify.Errors.{Ended, Confirms, send_authed_json-Ended}
use togewire.Spotify.Renewal.{Serves, access_token-Serves, refresh_oauth_token-invalid_grant}
use togewire.Spotify.MetadataLaws.{
  IsBounded, fetch_track_metadata-IsBounded, fetch_track_metadata-again,
}
use togewire.Spotify.Playback.{fetch_track_metadata, get_current_track}
use togewire.Audio.Librespot.{Librespot, Fetcher, done, granted, ensure_session}
use togewire.Audio.Sessions.{SessionOf, ensure_session-SessionOf}
use togewire.Spotify.ProgressLaws.{IsCurrent, get_current_track-IsCurrent}

abbrev product : Value
product = object (field (codes "product") (string (codes "Premium")) end)

abbrev uri : Text
uri = codes "spotify:track:6rqhFgbbKwnb9MLmUQDhG6"

abbrev player : Value
player = object (
    field (codes "player_state")
      (object (
        field (codes "is_paused") (boolean false) (
          field (codes "position") (number (unsigned 12345)) (
            field (codes "duration") (number (unsigned 210000))
              (field (codes "track") (object (field (codes "uri") (string uri) end)) end)))))
      end)

abbrev parse : Text → Option Value
parse s = if s =? codes "P" then some product else if s =? codes "S" then some player else none

abbrev j : Json
j = record { parse = parse; base16 = λ s. some s }

abbrev reply : ℕ → Text → Answer
reply status body = record {
  elapsed = 40;
  unix_ms_after = 50;
  reply = some (record { status = status; body = some body; retry_after = none });
}

abbrev auth : SpotifyAuth
auth = record {
  access_token = codes "A";
  refresh_token = some (codes "R");
  expires_at_unix = pos 3600;
}

abbrev paired : Process
paired = record {
  config = record default_config { spotify_auth = some auth };
  on_disk = none;
  use_librespot = false;
  force_no_librespot = false;
  plan = 0;
}

abbrev client : List Answer → Client
client answers = record {
  process = paired;
  disk_works = true;
  clock = 0;
  unix_ms = 0;
  token_cache = none;
  rate_limit_until = none;
  spclient_host_cache = some (codes "h", 900000);
  track_metadata_cache = [];
  answers = answers;
  sent = [];
}

-- The account is Premium.
abbrev premium_client : Client
premium_client = client (reply 200 (codes "P") ∷ [])

premium_on : (sync_librespot_for_subscription j premium_client).0.process.use_librespot ≡ true
unfolding sync_librespot_for_subscription togewire.Config.set_use_librespot
    togewire.Prelude.Words.as_i64 togewire.Prelude.Words.wrap_i64 togewire.Prelude.Int.◌-ℤ◌
    togewire.Prelude.Text-discrete plan_is_premium togewire.Spotify.Json.get_member member
    togewire.Server.Addresses.to_ascii_lowercase togewire.Config.set_premium
premium_on = refl

-- A Premium plan is read, and librespot goes on.
sync_librespot_for_subscription-confirmed_example :
    ((v : Value) × Confirms j v premium_client.answers
        (sync_librespot_for_subscription j premium_client).0.answers
      × (plan_is_premium v ≡ true))
    × ((sync_librespot_for_subscription j premium_client).0.process.force_no_librespot ≡ false)
    × (premium (sync_librespot_for_subscription j premium_client).0.process ≡ some true)
    × ((sync_librespot_for_subscription j premium_client).1 ≡ true)
sync_librespot_for_subscription-confirmed_example =
    sync_librespot_for_subscription-confirmed j premium_client premium_on

-- The token is rejected, the refreshed one works, and the service asks for a pause.
abbrev limited : Client
limited = client (reply 401 [] ∷ reply 200 (codes "P") ∷ reply 429 [] ∷ [])

send_authed_json-Ended_example :
    Ended j limited (send_authed_json j (product_state (codes "h")) limited)
send_authed_json-Ended_example = send_authed_json-Ended j (product_state (codes "h")) limited

abbrev holder : Client
holder = (access_token j premium_client).0

held : access_token j premium_client ≡ (holder, ok (codes "A"))
unfolding access_token togewire.Prelude.Words.as_i64 togewire.Prelude.Words.wrap_i64
    togewire.Prelude.Int.◌-ℤ◌
held = refl

access_token-Serves_example : Serves j holder (codes "A")
access_token-Serves_example = access_token-Serves j premium_client holder (codes "A") held

abbrev revoked : Client
revoked = client (reply 400 (codes "error: invalid_grant") ∷ [])

abbrev refusal : Response
refusal = record { status = 400; body = some (codes "error: invalid_grant"); retry_after = none }

answer_of_revoked : (exchange (refresh_oauth (codes "R")) revoked).1 ≡ some refusal
unfolding exchange
answer_of_revoked = refl

names_grant : is_some (after (codes "invalid_grant") (text_of refusal)) ≡ true
unfolding after togewire.Server.Addresses.strip_prefix togewire.Cache.Disk.starts_with
names_grant = refl

refresh_oauth_token-invalid_grant_example :
    ((refresh_oauth_token j (codes "R") revoked).1 ≡ failed (refresh_failed 400))
    × ((refresh_oauth_token j (codes "R") revoked).0.process.config.spotify_auth ≡ none)
    × (access_token j (refresh_oauth_token j (codes "R") revoked).0
        ≡ ((refresh_oauth_token j (codes "R") revoked).0, failed not_authenticated))
refresh_oauth_token-invalid_grant_example =
    refresh_oauth_token-invalid_grant j (codes "R") revoked refusal answer_of_revoked refl
      names_grant

no_metadata-IsBounded : IsBounded premium_client
unfolding togewire.Prelude.count
no_metadata-IsBounded = record { few = omega arith; map = λ q. omega arith }

fetch_track_metadata-IsBounded_example : IsBounded (fetch_track_metadata j uri premium_client).0
fetch_track_metadata-IsBounded_example =
    fetch_track_metadata-IsBounded j uri premium_client no_metadata-IsBounded

fetch_track_metadata-again_example :
    fetch_track_metadata j uri (fetch_track_metadata j uri premium_client).0
    ≡ fetch_track_metadata j uri premium_client
fetch_track_metadata-again_example = fetch_track_metadata-again j uri premium_client

-- A track plays, and its metadata is not there.
abbrev playing : Client
playing = client (reply 200 (codes "S") ∷ reply 404 [] ∷ [])

abbrev playing_state : SpotifyState
playing_state = record {
  track = some (record {
    id = codes "6rqhFgbbKwnb9MLmUQDhG6";
    name = codes "6rqhFgbbKwnb9MLmUQDhG6";
    artist = codes "Unknown Artist";
    album = [];
    album_artist = none;
    duration = pos 210000;
    explicit = false;
    cover_url = none;
    release_date = none;
    track_number = none;
    disc_number = none;
  });
  next_track = none;
  progress = pos 12345;
  is_playing = true;
}

state_of_playing : (get_current_track j playing).1 ≡ ok playing_state
unfolding get_current_track togewire.Prelude.Words.as_i64 togewire.Prelude.Words.wrap_i64
    togewire.Prelude.Int.◌-ℤ◌ togewire.Prelude.Text-discrete
    togewire.Spotify.Snapshot.parse_connect_state_snapshot find_value_by_key member
    togewire.Spotify.Uris.extract_track_uri togewire.Spotify.Uris.normalize_track_uri
    togewire.Spotify.Uris.prefixed_id togewire.Server.Addresses.strip_prefix
    togewire.Cache.Disk.starts_with togewire.Config.trim
    togewire.Spotify.Uris.is_probable_spotify_id togewire.Server.Auth.byte_len
    togewire.Spotify.Uris.is_alphanumeric togewire.Prelude.Maps.get track_id_from_uri
    togewire.Spotify.Json.nonempty_str togewire.Spotify.Extract.extract_album_name
    togewire.Spotify.Uris.reading togewire.Spotify.Extract.field_albums
    togewire.Spotify.Json.find_i64 togewire.Spotify.Json.value_as_i64
    togewire.Spotify.Extract.extract_explicit togewire.Spotify.Extract.extract_cover_url
    togewire.Spotify.Extract.extract_release_date togewire.Spotify.Extract.int_field
    togewire.Spotify.Json.value_as_bool togewire.Spotify.Extract.explicit_from_value
    togewire.Spotify.Extract.field_covers togewire.Spotify.Extract.date_of ◌+ℤ◌
    togewire.Spotify.Extract.cover_url_from_map
state_of_playing = refl

get_current_track-IsCurrent_example : IsCurrent playing_state
get_current_track-IsCurrent_example =
    get_current_track-IsCurrent j playing playing_state state_of_playing

abbrev track_id : Text
track_id = codes "6rqhFgbbKwnb9MLmUQDhG6"

abbrev share : Text
share = codes "?si=4f"

track_id-IsId : IsId track_id
unfolding all is_alphanumeric
track_id-IsId = record { long = omega arith; plain = refl }

share_is_clean : all visible share ≡ true
unfolding all togewire.Config.is_whitespace
share_is_clean = refl

track_id_from_uri-spellings_example :
    (track_id_from_uri (track_prefix ++ track_id) ≡ track_id)
    × (track_id_from_uri (codes "track:" ++ track_id) ≡ track_id)
    × (track_id_from_uri track_id ≡ track_id)
    × (track_id_from_uri (codes "https://open.spotify.com/track/" ++ (track_id ++ share))
        ≡ track_id)
track_id_from_uri-spellings_example =
    track_id_from_uri-spellings track_id share track_id-IsId refl share_is_clean

find_value_by_key-head_example :
    find_value_by_key (codes "track") player ≡ head (matches (codes "track") player)
find_value_by_key-head_example = find_value_by_key-head (codes "track") player

-- An identifier with a space in front is kept with its space, so that the result is no identifier.
spaced_uri :
    track_id_from_uri (codes "spotify:track: 6rqhFgbbKwnb9MLmUQDhG6")
    ≡ codes " 6rqhFgbbKwnb9MLmUQDhG6"
unfolding track_id_from_uri togewire.Spotify.Uris.normalize_track_uri
    togewire.Spotify.Uris.prefixed_id togewire.Server.Addresses.strip_prefix
    togewire.Cache.Disk.starts_with togewire.Config.trim
    togewire.Spotify.Uris.is_probable_spotify_id togewire.Server.Auth.byte_len is_alphanumeric
spaced_uri = refl

-- librespot connects with any token.
abbrev ls : Librespot
ls = record {
  is_invalid = λ id. false;
  connect = λ token. some 7;
  resolve = λ id track. done [];
  key = λ id c. granted;
  opens = λ id c. true;
  write = λ c. none;
}

abbrev fetcher : Fetcher
fetcher = record {
  client = premium_client;
  session = none;
  cooldown_until = none;
  refused = [];
  connections = [];
}

session_of_fetcher : (ensure_session j ls fetcher).1 ≡ done 7
unfolding ensure_session togewire.Prelude.Words.as_i64 togewire.Prelude.Words.wrap_i64
    togewire.Prelude.Int.◌-ℤ◌ togewire.Prelude.Text-discrete plan_is_premium
    togewire.Spotify.Json.get_member member togewire.Server.Addresses.to_ascii_lowercase
session_of_fetcher = refl

ensure_session-SessionOf_example : SessionOf j ls fetcher (ensure_session j ls fetcher)
ensure_session-SessionOf_example = ensure_session-SessionOf j ls fetcher
