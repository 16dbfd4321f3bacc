-- ===== src/Spotify/Errors.antt =====
-- src/spotify.rs: how an authenticated request ends.
use togewire.Prelude.{
  ℕ, ◌+◌, ◌≤◌, ◌≡◌, refl, ◌∙◌, sym, inl, inr, Bool, true, false, Option, none, some, List, ◌∷◌,
  Text, arith, if◌then◌else◌, ◌==◌, not, subst, Option-cases,
}
use togewire.Config.{SpotifyAuth}
use togewire.Spotify.Json.{Value}
use togewire.Spotify.Client.{
  Json, Answer, Request, Response, Client, Failure, not_authenticated, no_refresh_token, transport,
  bad_json, refresh_failed, rate_limited, bad_status, Result, ok, failed, exchange, seconds,
  is_success, json_of, refreshed, refresh_oauth_token, refresh_oauth, paired_token, keep_token,
  clear_cached_token, locked_token, access_token,
}
use togewire.Spotify.Costs.{Later, same, used, Later-trans, Later-exchange, List-cases}
use togewire.Spotify.TokenLaws.{Costs-access_token}
use togewire.Spotify.Requests.{
  cooldown_secs, wait_for_rate_limit_window, final_reply, attempts, send_authed_json,
}
use togewire.Spotify.RequestLaws.{wait-answers, invalidated}

-- The errors that come from the transport, from a reply or from the tokens.
abbrev pub is_request_error : Failure → Bool
is_request_error not_authenticated = true
is_request_error no_refresh_token = true
is_request_error transport = true
is_request_error bad_json = true
is_request_error (refresh_failed status) = true
is_request_error (bad_status status) = true
is_request_error why = false

module _ (j : Json) where
  -- One of the answers that are used from the first list down to the second is a success whose body is
  -- the JSON value.
  pub data Confirms (v : Value) : List Answer → List Answer → Type 0 where
    here :
        (a : Answer) (rest end : List Answer) (r : Response)
        → a.reply ≡ some r
        → is_success r ≡ true
        → json_of j r ≡ some v
        → Later rest end
        → Confirms v (a ∷ rest) end
    there : (a : Answer) (rest end : List Answer) → Confirms v rest end → Confirms v (a ∷ rest) end

  pub Confirms-Later :
      (v : Value) {as' bs end : List Answer} → Later as' bs → Confirms v bs end → Confirms v as' end
  Confirms-Later v (same _) h = h
  Confirms-Later v (used a as' bs l) h = there a as' _ (Confirms-Later v l h)

  Confirms-exchange :
      (q : Request) (c : Client) (r : Response) (v : Value)
      → (exchange q c).1 ≡ some r
      → is_success r ≡ true
      → json_of j r ≡ some v
      → Confirms v c.answers (exchange q c).0.answers
  unfolding exchange
  Confirms-exchange q c r v e s p = elim (List-cases c.answers) [
    | inl n ↦ let bad : none ≡ some r = sym (rw n refl) ∙ e in absurd (cc)
    | inr (a, rest, n) ↦
        let reply : a.reply ≡ some r = sym (rw n refl) ∙ e in
        rw n (here a rest rest r reply s p (same rest))
  ]

  -- How a request that starts with the answers of `c` ends.
  pub data Ended (c : Client) : Client × Result Value → Type 0 where
    answered :
        (d : Client) (v : Value)
        → Confirms v c.answers d.answers
        → d.rate_limit_until ≡ none
        → Ended c (d, ok v)
    cooling :
        (d : Client) (secs : ℕ)
        → 10 ≤ secs
        → secs ≤ 120
        → d.rate_limit_until ≡ some (d.clock + seconds secs)
        → Ended c (d, failed (rate_limited secs))
    refused : (d : Client) (why : Failure) → is_request_error why ≡ true → Ended c (d, failed why)

  pub Ended-Later :
      (c d : Client) (x : Client × Result Value) → Later c.answers d.answers → Ended d x → Ended c x
  Ended-Later c d _ l (answered e v h n) = answered e v (Confirms-Later v l h) n
  Ended-Later c d _ l (cooling e secs a b n) = cooling e secs a b n
  Ended-Later c d _ l (refused e why n) = refused e why n

  abbrev fine {ℓ} : {A : Type ℓ} → Result A → Bool
  fine (failed why) = is_request_error why
  fine (ok a) = true

  fine-refreshed :
      (refresh : Text) (r : Response) (c : Client) → fine (refreshed j refresh r c).1 ≡ true
  unfolding refreshed
  fine-refreshed refresh r c = ground arith

  fine-refresh : (refresh : Text) (c : Client) → fine (refresh_oauth_token j refresh c).1 ≡ true
  unfolding refresh_oauth_token
  fine-refresh refresh c = elim (Option-cases (exchange (refresh_oauth refresh) c).1) [
    | inl e ↦ rw (refresh_oauth_token, e) refl
    | inr (r, e) ↦
        rw (refresh_oauth_token, e)
          (fine-refreshed refresh r (exchange (refresh_oauth refresh) c).0)
  ]

  fine-paired_token : (auth : SpotifyAuth) (c : Client) → fine (paired_token j auth c).1 ≡ true
  unfolding paired_token
  fine-paired_token auth c = elim (Option-cases auth.refresh_token) [
    | inl e ↦ ground arith
    | inr (t, e) ↦ let h = fine-refresh t c in ground arith
  ]

  fine-keep_token :
      (r : Client × Result (Text × ℕ)) → fine r.1 ≡ true → fine (keep_token j r).1 ≡ true
  unfolding keep_token
  fine-keep_token (c, failed why) h = h
  fine-keep_token (c, ok t) h = refl

  fine-access_token : (c : Client) → fine (access_token j c).1 ≡ true
  unfolding access_token locked_token
  fine-access_token c = elim (Option-cases c.process.config.spotify_auth) [
    | inl e ↦ ground arith
    | inr (auth, e) ↦
        let h = fine-keep_token (paired_token j auth c) (fine-paired_token auth c) in ground arith
  ]

  cooldown_secs-range : (r : Response) → (10 ≤ cooldown_secs r) × (cooldown_secs r ≤ 120)
  unfolding cooldown_secs
  cooldown_secs-range r = ground arith

  Ended-if :
      (c : Client) (b : Bool) (x y : Client × Result Value)
      → (b ≡ true → Ended c x)
      → (b ≡ false → Ended c y)
      → Ended c (if b then x else y)
  Ended-if c true x y h k = h refl
  Ended-if c false x y h k = k refl

  Ended-body :
      (c d : Client) (o : Option Value)
      → d.rate_limit_until ≡ none
      → ((v : Value) → o ≡ some v → Confirms v c.answers d.answers)
      → Ended c (d, elim o as (λ _. Result Value) [ none ↦ failed bad_json | some v ↦ ok v ])
  Ended-body c d none n h = refused d bad_json refl
  Ended-body c d (some v) n h = answered d v (h v refl) n

  not-false : (b : Bool) → not b ≡ false → b ≡ true
  not-false true e = refl
  not-false false e = cc

  Ended-final :
      (c d : Client) (r : Response)
      → ((v : Value) → is_success r ≡ true → json_of j r ≡ some v → Confirms v c.answers d.answers)
      → Ended c (final_reply j r d)
  unfolding final_reply
  Ended-final c d r h =
      let (low, high) = cooldown_secs-range r in
      let lifted = record d { rate_limit_until = none } in
      Ended-if c (r.status == 429) _ _ (λ e. cooling _ (cooldown_secs r) low high refl)
        (λ e.
          Ended-if c (not (is_success r)) _ _ (λ f. refused d (bad_status r.status) refl)
            (λ f. Ended-body c lifted (json_of j r) refl (λ v. h v (not-false (is_success r) f))))

  module _ (build : Text → Request) where
    -- The reply to a request that starts at `c`.
    Ended-reply :
        (c : Client) (token : Text) (r : Response)
        → (exchange (build token) (wait_for_rate_limit_window c)).1 ≡ some r
        → Ended c (final_reply j r (exchange (build token) (wait_for_rate_limit_window c)).0)
    Ended-reply c token r e =
        let w = wait_for_rate_limit_window c in
        Ended-final c (exchange (build token) w).0 r (λ v s p.
          subst (λ as'. Confirms v as' (exchange (build token) w).0.answers) (wait-answers c)
            (Confirms-exchange (build token) w r v e s p))

    Later-asked :
        (c : Client) (token : Text)
        → Later c.answers (exchange (build token) (wait_for_rate_limit_window c)).0.answers
    Later-asked c token =
        subst (λ as'. Later as' (exchange (build token) (wait_for_rate_limit_window c)).0.answers)
          (wait-answers c) (Later-exchange (build token) (wait_for_rate_limit_window c))

    -- The request got `o` in the state `d`.
    Ended-option :
        (c d : Client) (o : Option Response) (f : Response → Client × Result Value)
        → ((r : Response) → o ≡ some r → Ended c (f r))
        → Ended c
            (elim o as (λ _. Client × Result Value) [ none ↦ (d, failed transport) | some r ↦ f r ])
    Ended-option c d none f h = refused d transport refl
    Ended-option c d (some r) f h = h r refl

    Ended-token :
        (c : Client) (t : Client × Result Text) (f : Text → Client × Result Value)
        → fine t.1 ≡ true
        → ((token : Text) → Ended c (f token))
        → Ended c (elim t.1 as (λ _. Client × Result Value) [
          | failed why ↦ (t.0, failed why)
          | ok token ↦ f token
        ])
    Ended-token c (d, failed why) f e h = refused d why e
    Ended-token c (d, ok token) f e h = h token

    Ended-second : (token : Text) (c : Client) → Ended c (attempts j build 1 false token c)
    unfolding attempts
    Ended-second token c =
        Ended-option c _ (exchange (build token) (wait_for_rate_limit_window c)).1 _
          (λ r e. Ended-reply c token r e)

    Ended-first : (token : Text) (c : Client) → Ended c (attempts j build 2 true token c)
    unfolding attempts clear_cached_token
    Ended-first token c =
        let d = (exchange (build token) (wait_for_rate_limit_window c)).0 in
        let t = access_token j (invalidated d) in
        let cost = Costs-access_token j (invalidated d) in
        Ended-option c d (exchange (build token) (wait_for_rate_limit_window c)).1 _ (λ r e.
          Ended-if c (r.status == 401) _ _
            (λ _. Ended-token c t _ (fine-access_token (invalidated d)) (λ token'.
              Ended-Later c t.0 _ (Later-trans (Later-asked c token) cost.later)
                (Ended-second token' t.0)))
            (λ _. Ended-reply c token r e))

    -- An authenticated request ends in one of three ways: with the JSON value of an answer of success
    -- that the client got meanwhile, the cooldown lifted; with a cooldown of 10 to 120 seconds from now on; or
    -- with an error of the transport, of a reply or of the token. It never ends because its two
    -- attempts are used up, and never with an error of another operation.
    pub send_authed_json-Ended : (c : Client) → Ended c (send_authed_json j build c)
    unfolding send_authed_json
    send_authed_json-Ended c =
        let t = access_token j c in
        let cost = Costs-access_token j c in
        Ended-token c t _ (fine-access_token c)
          (λ token. Ended-Later c t.0 _ cost.later (Ended-first token t.0))
