-- ===== src/Spotify/TokenLaws.antt =====
-- src/spotify.rs: what a token costs.
use togewire.Prelude.{ℕ, ◌≡◌, refl, Text, arith}
use togewire.Config.{SpotifyAuth}
use togewire.Spotify.Client.{
  Json, refresh_oauth, Response, Client, Result, ok, failed, exchange, cached_token, clear_session,
  clear_cached_token, refreshed, refresh_oauth_token, paired_token, keep_token, locked_token,
  access_token, transport,
}
use togewire.Spotify.Costs.{Costs, Costs-exchange, Costs-free, Costs-if, Costs-option, Costs-quiet}

module _ (j : Json) where
  refreshed-sent :
      (refresh : Text) (r : Response) (c : Client) → (refreshed j refresh r c).0.sent ≡ c.sent
  unfolding refreshed clear_session clear_cached_token
  refreshed-sent refresh r c = ground arith

  refreshed-answers :
      (refresh : Text) (r : Response) (c : Client) → (refreshed j refresh r c).0.answers ≡ c.answers
  unfolding refreshed clear_session clear_cached_token
  refreshed-answers refresh r c = ground arith

  refreshed-kept :
      (refresh : Text) (r : Response) (c : Client)
      → (refreshed j refresh r c).0.track_metadata_cache ≡ c.track_metadata_cache
  unfolding refreshed clear_session clear_cached_token
  refreshed-kept refresh r c = ground arith

  Costs-refresh : (refresh : Text) (c : Client) → Costs 1 c (refresh_oauth_token j refresh c).0
  unfolding refresh_oauth_token
  Costs-refresh refresh c =
      let r = exchange (refresh_oauth refresh) c in
      let sent = Costs-exchange (refresh_oauth refresh) c in
      Costs-option 1 c r.1 (r.0, failed transport) (λ reply. refreshed j refresh reply r.0) sent
        (λ reply.
          Costs-quiet 1 c r.0 _ sent (refreshed-answers refresh reply r.0)
            (refreshed-sent refresh reply r.0) (refreshed-kept refresh reply r.0))

  Costs-paired_token : (auth : SpotifyAuth) (c : Client) → Costs 1 c (paired_token j auth c).0
  unfolding paired_token
  Costs-paired_token auth c = Costs-if 1 c _ _ _ (Costs-free 1 c) (
      Costs-option 1 c auth.refresh_token _ (λ refresh. refresh_oauth_token j refresh c)
        (Costs-free 1 c) (λ refresh. Costs-refresh refresh c))

  Costs-keep_token :
      (c : Client) (r : Client × Result (Text × ℕ)) → Costs 1 c r.0 → Costs 1 c (keep_token j r).0
  unfolding keep_token
  Costs-keep_token c (d, failed why) h = h
  Costs-keep_token c (d, ok token) h = Costs-quiet 1 c d _ h refl refl refl

  Costs-locked_token : (c : Client) → Costs 1 c (locked_token j c).0
  unfolding locked_token
  Costs-locked_token c =
      Costs-option 1 c (cached_token c) _ _
        (Costs-option 1 c c.process.config.spotify_auth _ _ (Costs-free 1 c)
          (λ auth. Costs-keep_token c (paired_token j auth c) (Costs-paired_token auth c)))
        (λ cached. Costs-free 1 c)

  -- A token costs at most one request.
  pub Costs-access_token : (c : Client) → Costs 1 c (access_token j c).0
  unfolding access_token
  Costs-access_token c =
      Costs-option 1 c (cached_token c) _ _ (Costs-locked_token c) (λ cached. Costs-free 1 c)
