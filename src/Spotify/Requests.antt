-- ===== src/Spotify/Requests.antt =====
-- src/spotify.rs: authenticated requests: the cooldown, the second attempt and the errors.
use togewire.Prelude.{
  ℕ, zero, suc, ◌+◌, ◌-◌, min, max, Bool, true, false, not, ◌&&◌, Option, none, some, [], ◌∷◌, Text,
  if◌then◌else◌, ◌==◌,
}
use togewire.Prelude.Decimal.{at_most, magnitude, digits}
use togewire.Prelude.Words.{u64_modulus}
use togewire.Config.{invalidate_spotify_access_token}
use togewire.Spotify.Json.{Value, and_then}
use togewire.Spotify.Client.{
  Json, Response, Request, Client, transport, bad_json, after_retries, rate_limited, bad_status,
  Result, ok, failed, exchange, is_success, seconds, clear_cached_token, json_of, access_token,
}

-- Sleeps until the cooldown is over.
unfoldable pub wait_for_rate_limit_window : Client → Client
wait_for_rate_limit_window c = elim c.rate_limit_until [
  | none ↦ c
  | some until ↦ record c { clock = max c.clock until }
]

abbrev pub min_rate_limit_cooldown_secs : ℕ
min_rate_limit_cooldown_secs = 10

-- `str::parse::<u64>`
unfoldable pub parse_u64 : Text → Option ℕ
unfolding at_most digits
parse_u64 [] = none
parse_u64 (c ∷ s) = at_most (u64_modulus - 1) (magnitude (if c == b'+' then s else c ∷ s))

unfoldable pub cooldown_secs : Response → ℕ
cooldown_secs r =
    let asked : ℕ = elim (and_then r.retry_after parse_u64) [
      | none ↦ min_rate_limit_cooldown_secs
      | some n ↦ n
    ] in
    min (max asked min_rate_limit_cooldown_secs) 120

module _ (j : Json) where
  -- A reply that is not answered by another attempt.
  unfoldable pub final_reply : Response → Client → Client × Result Value
  unfolding cooldown_secs json_of
  final_reply r c =
      if r.status == 429
      then (let secs = cooldown_secs r in
          (
            record c { rate_limit_until = some (c.clock + seconds secs) },
            failed (rate_limited secs),
          ))
      else if not (is_success r)
      then (c, failed (bad_status r.status))
      else (
        record c { rate_limit_until = none },
        (elim (json_of j r) [ none ↦ failed bad_json | some v ↦ ok v ]),
      )

  -- The loop over the attempts: how many are left, whether it is the first, and the token to send.
  unfoldable pub attempts : (Text → Request) → ℕ → Bool → Text → Client → Client × Result Value
  unfolding exchange wait_for_rate_limit_window final_reply access_token clear_cached_token
  attempts build zero first token c = (c, failed after_retries)
  attempts build (suc left) first token c =
      let r = exchange (build token) (wait_for_rate_limit_window c) in
      elim r.1 [
        | none ↦ (r.0, failed transport)
        | some reply ↦
            if first && reply.status == 401
            then (let cleared = clear_cached_token r.0 in
                let fresh =
                  access_token j (record cleared {
                    process = invalidate_spotify_access_token cleared.process;
                  }) in
                elim fresh.1 [
                  | failed why ↦ (fresh.0, failed why)
                  | ok token' ↦ attempts build left false token' fresh.0
                ])
            else final_reply reply r.0
      ]

  -- Send an authenticated request and decode the JSON body, retrying once with a fresh token on 401.
  unfoldable pub send_authed_json : (Text → Request) → Client → Client × Result Value
  unfolding access_token attempts
  send_authed_json build c =
      let t = access_token j c in
      elim t.1 [ failed why ↦ (t.0, failed why) | ok token ↦ attempts build 2 true token t.0 ]
