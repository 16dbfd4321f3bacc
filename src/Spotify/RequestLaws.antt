-- ===== src/Spotify/RequestLaws.antt =====
-- src/spotify.rs: how an authenticated request ends, and what it costs.
use togewire.Prelude.{ℕ, zero, suc, ◌≡◌, refl, true, false, Option, Text, arith}
use togewire.Spotify.Json.{Value}
use togewire.Config.{invalidate_spotify_access_token}
use togewire.Spotify.Client.{
  Json, Request, Response, Client, Result, ok, failed, exchange, clear_cached_token, access_token,
}
use togewire.Spotify.Costs.{
  Costs, Costs-none, Costs-exchange, Costs-free, Costs-if, Costs-option, Costs-result, Costs-quiet,
  Costs-trans, Costs-le,
}
use togewire.Spotify.TokenLaws.{Costs-access_token}
use togewire.Spotify.Requests.{wait_for_rate_limit_window, final_reply, attempts, send_authed_json}

pub wait-answers : (c : Client) → (wait_for_rate_limit_window c).answers ≡ c.answers
unfolding wait_for_rate_limit_window
wait-answers c = ground arith

wait-sent : (c : Client) → (wait_for_rate_limit_window c).sent ≡ c.sent
unfolding wait_for_rate_limit_window
wait-sent c = ground arith

wait-kept :
    (c : Client) → (wait_for_rate_limit_window c).track_metadata_cache ≡ c.track_metadata_cache
unfolding wait_for_rate_limit_window
wait-kept c = ground arith

-- The state in which a fresh token is asked for after a 401.
abbrev pub invalidated : Client → Client
invalidated c = record (clear_cached_token c) {
  process = invalidate_spotify_access_token (clear_cached_token c).process;
}

module _ (j : Json) where
  final_reply-answers : (r : Response) (c : Client) → (final_reply j r c).0.answers ≡ c.answers
  unfolding final_reply
  final_reply-answers r c = ground arith

  final_reply-sent : (r : Response) (c : Client) → (final_reply j r c).0.sent ≡ c.sent
  unfolding final_reply
  final_reply-sent r c = ground arith

  final_reply-kept :
      (r : Response) (c : Client)
      → (final_reply j r c).0.track_metadata_cache ≡ c.track_metadata_cache
  unfolding final_reply
  final_reply-kept r c = ground arith

  module _ (build : Text → Request) where
    -- The first request of the loop.
    abbrev asked : Text → Client → Client × Option Response
    asked token c = exchange (build token) (wait_for_rate_limit_window c)

    Costs-asked : (token : Text) (c : Client) → Costs 1 c (asked token c).0
    Costs-asked token c =
        Costs-trans 0 1 c (wait_for_rate_limit_window c) _
          (Costs-quiet 0 c c _ (Costs-none c) (wait-answers c) (wait-sent c) (wait-kept c))
          (Costs-exchange (build token) (wait_for_rate_limit_window c))

    Costs-final :
        (n : ℕ) (c d : Client) (r : Response) → Costs n c d → Costs n c (final_reply j r d).0
    Costs-final n c d r h =
        Costs-quiet n c d _ h (final_reply-answers r d) (final_reply-sent r d)
          (final_reply-kept r d)

    Costs-second :
        (left : ℕ) (token : Text) (c : Client) → Costs 1 c (attempts j build left false token c).0
    unfolding attempts
    Costs-second zero token c = Costs-free 1 c
    Costs-second (suc left) token c =
        let r = asked token c in
        let sent = Costs-asked token c in
        Costs-option 1 c r.1 _ _ sent (λ reply. Costs-final 1 c r.0 reply sent)

    -- The second attempt, with a fresh token.
    Costs-retry :
        (left : ℕ) (c d : Client)
        → Costs 1 c d
        → Costs 3 c
            (elim (access_token j (invalidated d)).1 as (λ _. Client × Result Value) [
              | failed why ↦ ((access_token j (invalidated d)).0, failed why)
              | ok token' ↦ attempts j build left false token' (access_token j (invalidated d)).0
            ]).0
    unfolding clear_cached_token
    Costs-retry left c d h =
        let t = access_token j (invalidated d) in
        let clean = Costs-quiet 1 c d (invalidated d) h refl refl refl in
        let fresh =
          Costs-trans 1 1 c (invalidated d) t.0 clean (Costs-access_token j (invalidated d)) in
        Costs-result 3 c t.1 _ _ (λ why. Costs-le 2 3 c t.0 (omega arith) fresh)
          (λ token'. Costs-trans 2 1 c t.0 _ fresh (Costs-second left token' t.0))

    Costs-first :
        (left : ℕ) (token : Text) (c : Client) → Costs 3 c (attempts j build left true token c).0
    unfolding attempts
    Costs-first zero token c = Costs-free 3 c
    Costs-first (suc left) token c =
        let r = asked token c in
        let sent = Costs-asked token c in
        let more = Costs-le 1 3 c r.0 (omega arith) sent in
        Costs-option 3 c r.1 _ _ more (λ reply.
          Costs-if 3 c _ _ _ (Costs-retry left c r.0 sent) (Costs-final 3 c r.0 reply more))

    -- A request costs at most two of its own and two for tokens.
    pub Costs-send_authed_json : (c : Client) → Costs 4 c (send_authed_json j build c).0
    unfolding send_authed_json
    Costs-send_authed_json c =
        let t = access_token j c in
        let first = Costs-access_token j c in
        Costs-result 4 c t.1 _ _ (λ why. Costs-le 1 4 c t.0 (omega arith) first)
          (λ token. Costs-trans 1 3 c t.0 _ first (Costs-first 2 token t.0))
