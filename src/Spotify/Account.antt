-- ===== src/Spotify/Account.antt =====
-- src/spotify.rs: pairing and the account's plan.
use togewire.Prelude.{
  ℕ, ◌+◌, ◌-◌, drop, length, Bool, true, false, ◌&&◌, Option, none, some, List, [], ◌∷◌, Text, ◌=?◌,
  if◌then◌else◌, ltb, codes,
}
use togewire.Config.{save_spotify_auth, set_premium, set_use_librespot, trim}
use togewire.Server.Addresses.{eq_ignore_ascii_case}
use togewire.Types.{is_empty}
use togewire.Spotify.Json.{
  Value, null, number, and_then, as_str, as_array, get_member, number_as_u64, find_map,
}
use togewire.Spotify.Client.{
  Json, Response, Client, Result, ok, failed, exchange, is_success, seconds, json_of, text_of,
  TokenResponse, token_response, now_unix, clear_cached_token, device_authorize, device_token,
  apresolve, product_state, optional_str,
}
use togewire.Spotify.Requests.{send_authed_json}

-- How starting to pair and one poll of it end. A message keeps the end of what the service said.
pub data PairFailure : Type 0 where
  unreachable invalid_json declined expired : PairFailure
  rejected : ℕ → Text → PairFailure
  other_error : Text → Text → PairFailure
  exchange_failed : ℕ → Text → PairFailure

pub record DeviceAuthResponse : Type 0 where
  pub device_code : Text
  pub user_code : Text
  pub verification_uri : Option Text
  pub verification_uri_complete : Option Text
  pub interval : Option ℕ

abbrev optional_u64 : Option Value → Option (Option ℕ)
optional_u64 none = some none
optional_u64 (some null) = some none
optional_u64 (some (number n)) = and_then (number_as_u64 n) (λ u. some (some u))
optional_u64 (some v) = none

-- The deserialisation of the reply.
unfoldable pub device_auth_response : Value → Option DeviceAuthResponse
device_auth_response v = and_then (and_then (get_member (codes "device_code") v) as_str) (λ device.
    and_then (and_then (get_member (codes "user_code") v) as_str) (λ user.
      and_then (optional_str (get_member (codes "verification_uri") v)) (λ uri.
        and_then (optional_str (get_member (codes "verification_uri_complete") v)) (λ complete.
          and_then (optional_u64 (get_member (codes "interval") v)) (λ secs. some (record {
            device_code = device;
            user_code = user;
            verification_uri = uri;
            verification_uri_complete = complete;
            interval = secs;
          }))))))

pub data Poll : Type 0 where
  approved : TokenResponse → Poll
  pending slow_down : Poll
  poll_failed : PairFailure → Poll

abbrev text_field : Text → Value → Option Text
text_field k v = and_then (get_member k v) as_str

abbrev value_or_null : Option Value → Value
value_or_null none = null
value_or_null (some v) = v

abbrev or_nothing : Option Text → Text
or_nothing none = []
or_nothing (some s) = s

abbrev paired_or_invalid : Option TokenResponse → Poll
paired_or_invalid none = poll_failed invalid_json
paired_or_invalid (some t) = approved t

-- The last `n` characters of the trimmed text.
unfoldable pub tail_chars : Text → ℕ → Text
tail_chars given n = let s = trim given in drop (length s - n) s

pub data Pairing : Type 0 where
  started : DeviceAuthResponse → Pairing
  not_started : PairFailure → Pairing

abbrev started_or_invalid : Option DeviceAuthResponse → Pairing
started_or_invalid none = not_started invalid_json
started_or_invalid (some d) = started d

module _ (j : Json) where
  unfoldable pub request_device_code : Client → Client × Pairing
  unfolding exchange json_of device_auth_response tail_chars
  request_device_code c =
      let r = exchange device_authorize c in
      elim r.1 [
        | none ↦ (r.0, not_started unreachable)
        | some reply ↦ (
          r.0,
          if is_success reply
              then started_or_invalid (and_then (json_of j reply) device_auth_response)
              else not_started (rejected reply.status (tail_chars (text_of reply) 200)),
        )
      ]

  unfoldable pub poll_error : ℕ → Text → Value → Poll
  poll_error status body err = elim (text_field (codes "error") err) [
    | none ↦ poll_failed (exchange_failed status (tail_chars body 200))
    | some why ↦
        if why =? codes "authorization_pending"
        then pending
        else if why =? codes "slow_down"
        then slow_down
        else if why =? codes "access_denied"
        then poll_failed declined
        else if why =? codes "expired_token"
        then poll_failed expired
        else poll_failed (other_error why (or_nothing (text_field (codes "error_description") err)))
  ]

  -- One poll of the token endpoint while the user has not approved yet.
  unfoldable pub poll_device_token : Text → Client → Client × Poll
  unfolding exchange poll_error token_response
  poll_device_token code c =
      let r = exchange (device_token code) c in
      elim r.1 [
        | none ↦ (r.0, poll_failed unreachable)
        | some reply ↦ (
          r.0,
          if is_success reply
              then paired_or_invalid (and_then (j.parse (text_of reply)) token_response)
              else poll_error reply.status (text_of reply)
                  (value_or_null (j.parse (text_of reply))),
        )
      ]

abbrev pub spclient_default_host : Text
spclient_default_host = codes "spclient.wg.spotify.com"

abbrev pub spclient_cache_secs : ℕ
spclient_cache_secs = 900

abbrev pub kept_host : Client → Option Text
kept_host c = elim c.spclient_host_cache [
  | none ↦ none
  | some cached ↦ if ltb c.clock cached.1 then some cached.0 else none
]

-- The list of hosts in the reply: a text that is no text makes the reply invalid.
unfoldable pub host_texts : List Value → Option (List Text)
host_texts [] = some []
host_texts (v ∷ vs) =
    let rest = host_texts vs in and_then (as_str v) (λ s. and_then rest (λ more. some (s ∷ more)))

abbrev hosts_of : Value → Option (List Text)
hosts_of v = elim (get_member (codes "spclient") v) [
  | none ↦ some []
  | some hosts ↦ and_then (as_array hosts) host_texts
]

abbrev usable_host : Text → Option Text
usable_host host = if is_empty (trim host) then none else some host

module _ (j : Json) where
  unfoldable pub resolved_host : Option Response → Option Text
  unfolding json_of host_texts find_map
  resolved_host none = none
  resolved_host (some r) =
      if is_success r
      then and_then (and_then (json_of j r) hosts_of) (find_map usable_host)
      else none

  unfoldable pub resolve_spclient_host : Client → Client × Text
  unfolding exchange resolved_host
  resolve_spclient_host c = elim (kept_host c) [
    | some host ↦ (c, host)
    | none ↦
        let r = exchange apresolve c in
        let host : Text = elim (resolved_host r.1) [ none ↦ spclient_default_host | some h ↦ h ] in
        let expires = (r.0).clock + seconds spclient_cache_secs in
        (record (r.0) { spclient_host_cache = some (host, expires) }, host)
  ]

-- `use_librespot` needs a plan that says "premium", and exactly so where it has a type too.
unfoldable pub plan_is_premium : Value → Bool
unfolding eq_ignore_ascii_case
plan_is_premium state =
    (elim (text_field (codes "product") state) [
      | none ↦ false
      | some p ↦ eq_ignore_ascii_case p (codes "premium")
    ])
    && (elim (text_field (codes "type") state) [ none ↦ true | some t ↦ t =? codes "premium" ])

abbrev pub plan_of : Result Value → Result Bool
plan_of (failed why) = failed why
plan_of (ok body) = ok (plan_is_premium body)

abbrev pub confirmed : Result Bool → Option Bool
confirmed (failed why) = none
confirmed (ok premium) = some premium

abbrev pub is_yes : Option Bool → Bool
is_yes none = false
is_yes (some b) = b

module _ (j : Json) where
  unfoldable pub account_is_premium : Client → Client × Result Bool
  unfolding resolve_spclient_host send_authed_json
  account_is_premium c =
      let h = resolve_spclient_host j c in
      let r = send_authed_json j (product_state h.1) h.0 in (r.0, plan_of r.1)

  -- Derive `use_librespot` from the account plan; returns whether it is Premium.
  unfoldable pub sync_librespot_for_subscription : Client → Client × Bool
  unfolding account_is_premium
  sync_librespot_for_subscription c =
      let r = account_is_premium c in
      let plan = confirmed r.1 in
      let premium = is_yes plan in
      (
        record (r.0) { process = set_use_librespot premium (set_premium plan (r.0).process) },
        premium,
      )

  -- Store freshly paired tokens and pick the cache source for the plan; returns Premium.
  unfoldable pub complete_pairing : TokenResponse → Client → Client × Option Bool
  unfolding sync_librespot_for_subscription clear_cached_token
  complete_pairing token c =
      let saved =
        save_spotify_auth (now_unix c) token.access_token token.refresh_token token.expires_in
          c.disk_works c.process in
      let stored = record c { process = saved.0 } in
      if saved.1
      then (let synced = sync_librespot_for_subscription (clear_cached_token stored) in
          (synced.0, some synced.1))
      else (stored, none)
