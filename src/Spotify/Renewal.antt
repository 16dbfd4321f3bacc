-- ===== src/Spotify/Renewal.antt =====
-- src/spotify.rs: how long a token serves, and what a rejected refresh leaves.
use togewire.Prelude.{
  ℕ, ◌+◌, ◌≤◌, ◌≡◌, refl, ◌∙◌, sym, ap, ◌⊎◌, inl, inr, true, false, none, some, Text, arith,
  Option-cases, codes,
}
use togewire.Config.{SpotifyAuth, update, save}
use togewire.Spotify.Client.{
  Json, Response, Client, not_authenticated, refresh_failed, Result, ok, failed, exchange,
  refresh_oauth, seconds, cached_token, clear_session, clear_cached_token, refreshed,
  refresh_oauth_token, paired_token, keep_token, locked_token, access_token, is_success,
  contains_text, text_of,
}

module _ (j : Json) where
  -- The token is cached until `e`, and serves again unless it is about to expire.
  abbrev pub Serves : Client → Text → Type 0
  Serves c t =
      (e : ℕ) × (c.token_cache ≡ some (t, e))
      × ((access_token j c ≡ (c, ok t)) ⊎ (e ≤ c.clock + seconds 60))

  access-known : (c : Client) (t : Text) → cached_token c ≡ some t → access_token j c ≡ (c, ok t)
  unfolding access_token
  access-known c t k = rw (access_token, k) refl

  cached-until :
      (c : Client) (t : Text) (e : ℕ)
      → c.token_cache ≡ some (t, e)
      → (cached_token c ≡ some t) ⊎ (e ≤ c.clock + seconds 60)
  unfolding cached_token
  cached-until c t e h = ground arith

  cached-Serves : (c : Client) (t : Text) (e : ℕ) → c.token_cache ≡ some (t, e) → Serves c t
  cached-Serves c t e h = elim (cached-until c t e h) [
    | inl k ↦ (e, h, inl (access-known c t k))
    | inr le ↦ (e, h, inr le)
  ]

  keep_token-Serves :
      (r : Client × Result (Text × ℕ)) (c' : Client) (t : Text)
      → keep_token j r ≡ (c', ok t)
      → Serves c' t
  unfolding keep_token
  keep_token-Serves (c, failed why) c' t h = absurd (cc)
  keep_token-Serves (c, ok token) c' t h =
      cached-Serves c' t (c.clock + seconds token.1) (ground arith)

  known-entry :
      (c : Client) (s : Text) → cached_token c ≡ some s → (e : ℕ) × (c.token_cache ≡ some (s, e))
  unfolding cached_token
  known-entry c s k = elim (Option-cases c.token_cache) [
    | inl n ↦ let bad : none ≡ some s = sym (rw n refl) ∙ k in absurd (cc)
    | inr (entry, n) ↦ (entry.1, ground arith)
  ]

  known-Serves :
      (c c' : Client) (s t : Text)
      → cached_token c ≡ some s
      → access_token j c ≡ (c', ok t)
      → Serves c' t
  known-Serves c c' s t k h =
      let both : ◌≡◌ {A = Client × Result Text} (c, ok s) (c', ok t) =
        sym (access-known c s k) ∙ h in
      let (e, n) = known-entry c s k in
      let same_client : c ≡ c' = ap (λ x. x.0) both in
      let same_result : ok s ≡ ok t = ap (λ x. x.1) both in
      let same_token : s ≡ t = cc in cached-Serves c' t e (rw (← same_client, ← same_token) n)

  abbrev locked_pair : Client → SpotifyAuth → Client × Result Text
  locked_pair c auth = keep_token j (paired_token j auth c)

  access-none :
      (c : Client)
      → cached_token c ≡ none
      → c.process.config.spotify_auth ≡ none
      → access_token j c ≡ (c, failed not_authenticated)
  unfolding access_token locked_token
  access-none c k n = ground arith

  access-paired :
      (c : Client) (auth : SpotifyAuth)
      → cached_token c ≡ none
      → c.process.config.spotify_auth ≡ some auth
      → access_token j c ≡ locked_pair c auth
  unfolding access_token locked_token
  access-paired c auth k n = cc

  -- A token that the client hands out is cached, and asking for a token again at once gives the same one
  -- with no request and no change, unless it expires within a minute.
  pub access_token-Serves : (c c' : Client) (t : Text) → access_token j c ≡ (c', ok t) → Serves c' t
  access_token-Serves c c' t h = elim (Option-cases (cached_token c)) [
    | inr (s, k) ↦ known-Serves c c' s t k h
    | inl k ↦ elim (Option-cases c.process.config.spotify_auth) [
      | inl n ↦ let bad = sym (access-none c k n) ∙ h in absurd (cc)
      | inr (auth, n) ↦
          keep_token-Serves (paired_token j auth c) c' t (sym (access-paired c auth k n) ∙ h)
    ]
  ]

  rejected :
      (refresh : Text) (c : Client) (r : Response)
      → (exchange (refresh_oauth refresh) c).1 ≡ some r
      → is_success r ≡ false
      → contains_text (codes "invalid_grant") (text_of r) ≡ true
      → refresh_oauth_token j refresh c
        ≡ (clear_session (exchange (refresh_oauth refresh) c).0, failed (refresh_failed r.status))
  unfolding refresh_oauth_token refreshed
  rejected refresh c r e s g = rw (refresh_oauth_token, e, refreshed, s, g) refl

  unpaired : (c : Client) → (clear_session c).process.config.spotify_auth ≡ none
  unfolding clear_session clear_cached_token update save
  unpaired c = ground arith

  cleared :
      (c : Client) → access_token j (clear_session c) ≡ (clear_session c, failed not_authenticated)
  unfolding cached_token clear_session clear_cached_token
  cleared c = access-none (clear_session c) refl (unpaired c)

  -- A refresh that is rejected as an invalid grant ends the session: the account is no longer paired,
  -- and a token is then refused with no request and no change, whatever was cached.
  pub refresh_oauth_token-invalid_grant :
      (refresh : Text) (c : Client) (r : Response)
      → (exchange (refresh_oauth refresh) c).1 ≡ some r
      → is_success r ≡ false
      → contains_text (codes "invalid_grant") (text_of r) ≡ true
      → ((refresh_oauth_token j refresh c).1 ≡ failed (refresh_failed r.status))
        × ((refresh_oauth_token j refresh c).0.process.config.spotify_auth ≡ none)
        × (access_token j (refresh_oauth_token j refresh c).0
            ≡ ((refresh_oauth_token j refresh c).0, failed not_authenticated))
  refresh_oauth_token-invalid_grant refresh c r e s g = rw (rejected refresh c r e s g) (
    refl,
    unpaired (exchange (refresh_oauth refresh) c).0,
    cleared (exchange (refresh_oauth refresh) c).0,
  )
