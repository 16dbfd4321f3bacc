-- ===== src/Spotify/Client.antt =====
-- src/spotify.rs: the client's state, its access token. Times of the
-- monotonic clock are in milliseconds; the answers of the services come in turn from a list.
use togewire.Prelude.{
  ℕ, ◌+◌, ◌*◌, ◌/◌, Bool, not, ◌&&◌, Option, none, some, List, [], ◌∷◌, Text, if◌then◌else◌, ltb,
  leb, codes, is_some, is_some,
}
use togewire.Prelude.Int.{ℤ, pos, ltb_ℤ, ◌-ℤ◌}
use togewire.Prelude.Words.{as_i64, wrap_i64, as_u64}
use togewire.Config.{Process, SpotifyAuth, update, save_spotify_auth}
use togewire.Types.{Track}
use togewire.Spotify.Json.{Value, null, number, string, and_then, as_str, get_member, number_as_u64}
use togewire.Spotify.Uris.{after}

-- `serde_json::from_str`, and the conversion of an identifier by librespot.
pub record Json : Type 0 where
  pub parse : Text → Option Value
  pub base16 : Text → Option Text

-- A body that cannot be read is `none`.
pub record Response : Type 0 where
  pub status : ℕ
  pub body : Option Text
  pub retry_after : Option Text

-- What a request gets, `none` for a failure of the transport, with the time it takes and the
-- wall-clock time by then.
pub record Answer : Type 0 where
  pub elapsed : ℕ
  pub unix_ms_after : ℕ
  pub reply : Option Response

-- A request with its bearer token: `product_state host token`, `connect_state host token` and
-- `track_metadata host gid token`; the first four have none.
pub data Request : Type 0 where
  refresh_oauth : Text → Request
  device_authorize : Request
  device_token : Text → Request
  apresolve : Request
  product_state : Text → Text → Request
  connect_state : Text → Text → Request
  track_metadata : Text → Text → Text → Request

-- A track's metadata, None for a missing entry, and when a lookup that failed may be tried again.
abbrev pub CachedTrack : Type 0
CachedTrack = Option Track × Option ℕ

-- The state of `Inner` beside the configuration, the clocks and what is sent, newest first.
pub record Client : Type 0 where
  pub process : Process
  pub disk_works : Bool
  pub clock : ℕ
  pub unix_ms : ℕ
  pub token_cache : Option (Text × ℕ)
  pub rate_limit_until : Option ℕ
  pub spclient_host_cache : Option (Text × ℕ)
  pub track_metadata_cache : List (Text × CachedTrack)
  pub answers : List Answer
  pub sent : List Request

-- The wall clock in seconds and in milliseconds, as `i64`.
abbrev pub now_unix : Client → ℤ
now_unix c = as_i64 (c.unix_ms / 1000)

abbrev pub current_unix_ms : Client → ℤ
current_unix_ms c = as_i64 c.unix_ms

pub data Failure : Type 0 where
  not_authenticated no_refresh_token transport bad_json after_retries no_player_state bad_id :
      Failure
  refresh_failed : ℕ → Failure
  rate_limited : ℕ → Failure
  bad_status : ℕ → Failure

pub data Result {ℓ} (A : Type ℓ) : Type ℓ where
  ok : A → Result A
  failed : Failure → Result A

unfoldable pub exchange : Request → Client → Client × Option Response
exchange r c = elim c.answers [
  | [] ↦ (record c { sent = r ∷ c.sent }, none)
  | a ∷ rest ↦ (
    record c {
      clock = c.clock + a.elapsed;
      unix_ms = a.unix_ms_after;
      answers = rest;
      sent = r ∷ c.sent;
    },
    a.reply,
  )
]

abbrev pub is_success : Response → Bool
is_success r = leb 200 r.status && ltb r.status 300

abbrev pub text_of : Response → Text
text_of r = elim r.body [ none ↦ [] | some s ↦ s ]

abbrev pub seconds : ℕ → ℕ
seconds n = 1000 * n

pub record TokenResponse : Type 0 where
  pub access_token : Text
  pub refresh_token : Option Text
  pub expires_in : ℕ

abbrev pub default_expires_in : ℕ
default_expires_in = 3600

-- A field that may be missing or null; `none` if it is of another type.
abbrev pub optional_str : Option Value → Option (Option Text)
optional_str none = some none
optional_str (some null) = some none
optional_str (some (string s)) = some (some s)
optional_str (some v) = none

abbrev u64_or : ℕ → Option Value → Option ℕ
u64_or d none = some d
u64_or d (some (number n)) = number_as_u64 n
u64_or d (some v) = none

-- The deserialisation of the token endpoint's reply.
unfoldable pub token_response : Value → Option TokenResponse
token_response v = and_then (and_then (get_member (codes "access_token") v) as_str) (λ access.
    and_then (optional_str (get_member (codes "refresh_token") v)) (λ refresh.
      and_then (u64_or default_expires_in (get_member (codes "expires_in") v)) (λ secs.
        some (record { access_token = access; refresh_token = refresh; expires_in = secs }))))

unfoldable pub clear_cached_token : Client → Client
clear_cached_token c = record c { token_cache = none }

unfoldable pub clear_session : Client → Client
unfolding clear_cached_token
clear_session c =
    let cleared = clear_cached_token c in
    record cleared {
      process = (update (λ cfg. record cfg { spotify_auth = none }) c.disk_works c.process).0;
    }

-- Cached token, treated as expired 60s early so callers never use a dying one.
unfoldable pub cached_token : Client → Option Text
cached_token c = elim c.token_cache [
  | none ↦ none
  | some cached ↦ if ltb (c.clock + seconds 60) cached.1 then some cached.0 else none
]

abbrev pub contains_text : Text → Text → Bool
contains_text pattern s = is_some (after pattern s)

abbrev kept_token : Option Text → Text → Option Text
kept_token (some t) old = some t
kept_token none old = some old

module _ (j : Json) where
  unfoldable pub json_of : Response → Option Value
  json_of r = and_then r.body j.parse

  -- The answer of the token endpoint; a rejected refresh token ends the session.
  unfoldable pub refreshed : Text → Response → Client → Client × Result (Text × ℕ)
  unfolding json_of
  refreshed refresh_token r c =
      if not (is_success r)
      then (
        if contains_text (codes "invalid_grant") (text_of r) then clear_session c else c,
        failed (refresh_failed r.status),
      )
      else elim (and_then (json_of r) token_response) [
        | none ↦ (c, failed bad_json)
        | some payload ↦ (
          record c {
            process =
                (save_spotify_auth (now_unix c) payload.access_token
                  (kept_token payload.refresh_token refresh_token) payload.expires_in c.disk_works
                  c.process).0;
          },
          ok (payload.access_token, payload.expires_in),
        )
      ]

  unfoldable pub refresh_oauth_token : Text → Client → Client × Result (Text × ℕ)
  unfolding exchange refreshed
  refresh_oauth_token refresh_token c =
      let r = exchange (refresh_oauth refresh_token) c in
      elim r.1 [ none ↦ (r.0, failed transport) | some reply ↦ refreshed refresh_token reply r.0 ]

  -- The token that is paired, refreshed if it is about to expire, with the seconds it lasts.
  unfoldable pub paired_token : SpotifyAuth → Client → Client × Result (Text × ℕ)
  unfolding refresh_oauth_token
  paired_token auth c =
      if ltb_ℤ (now_unix c) (wrap_i64 (auth.expires_at_unix -ℤ pos 60))
      then (c, ok (auth.access_token, as_u64 (wrap_i64 (auth.expires_at_unix -ℤ now_unix c))))
      else elim auth.refresh_token [
        | none ↦ (c, failed no_refresh_token)
        | some refresh ↦ refresh_oauth_token refresh c
      ]

  unfoldable pub keep_token : Client × Result (Text × ℕ) → Client × Result Text
  keep_token (c, failed why) = (c, failed why)
  keep_token (c, ok token) =
      (record c { token_cache = some (token.0, c.clock + seconds token.1) }, ok token.0)

  -- Under the refresh lock: another task may have refreshed the token meanwhile.
  unfoldable pub locked_token : Client → Client × Result Text
  unfolding cached_token paired_token keep_token
  locked_token c = elim (cached_token c) [
    | some cached ↦ (c, ok cached)
    | none ↦ elim c.process.config.spotify_auth [
      | none ↦ (c, failed not_authenticated)
      | some auth ↦ keep_token (paired_token auth c)
    ]
  ]

  -- Get a valid bearer token, refreshing if expired.
  unfoldable pub access_token : Client → Client × Result Text
  unfolding cached_token locked_token
  access_token c = elim (cached_token c) [ some cached ↦ (c, ok cached) | none ↦ locked_token c ]
