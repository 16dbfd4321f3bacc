-- ===== src/Audio/Sessions.antt =====
-- src/audio/librespot_src.rs: librespot connects only once the plan is known to be Premium.
use togewire.Prelude.{ℕ, ◌≡◌, refl, ap, Bool, true, false, Option, none, some, [], ◌∷◌, Text}
use togewire.Spotify.Json.{Value}
use togewire.Spotify.Costs.{Later}
use togewire.Spotify.Client.{Json, Client, Result, ok, failed, access_token}
use togewire.Spotify.TokenLaws.{Costs-access_token}
use togewire.Spotify.Account.{account_is_premium, plan_is_premium}
use togewire.Spotify.AccountLaws.{account_is_premium-confirmed}
use togewire.Spotify.Errors.{Confirms, Confirms-Later}
use togewire.Audio.Librespot.{
  Librespot, LibrespotError, auth_error, other_failure, Attempt, Fetcher, done, broken, connected,
  with_token, valid_session, ensure_session,
}

module _ (j : Json) (ls : Librespot) where
  -- Between the two states of the client an answer confirms Premium.
  abbrev pub Confirmed : Client → Client → Type 0
  Confirmed c d = (v : Value) × Confirms j v c.answers d.answers × (plan_is_premium v ≡ true)

  -- How asking for a session in the state `s` ends.
  pub data SessionOf (s : Fetcher) : Fetcher × Attempt ℕ → Type 0 where
    still_valid : (id : ℕ) → valid_session ls s.session ≡ some id → SessionOf s (s, done id)
    not_tried :
        (t : Fetcher) (why : LibrespotError)
        → t.connections ≡ s.connections
        → t.session ≡ s.session
        → SessionOf s (t, broken why)
    not_connected :
        (t : Fetcher) (token : Text) (at : Client)
        → t.connections ≡ (token, at) ∷ s.connections
        → Confirmed s.client at
        → t.session ≡ s.session
        → SessionOf s (t, broken auth_error)
    opened :
        (t : Fetcher) (token : Text) (at : Client) (id : ℕ)
        → t.connections ≡ (token, at) ∷ s.connections
        → Confirmed s.client at
        → ls.connect token ≡ some id
        → t.session ≡ some id
        → SessionOf s (t, done id)

  -- After the plan `plan` came back with the client of `t`.
  connected-SessionOf :
      (s t : Fetcher) (token : Text) (plan : Result Bool)
      → t.connections ≡ s.connections
      → t.session ≡ s.session
      → (plan ≡ ok true → Confirmed s.client t.client)
      → SessionOf s (connected j ls token plan t)
  unfolding connected
  connected-SessionOf s t token (failed why) c e h = not_tried t other_failure c e
  connected-SessionOf s t token (ok false) c e h = not_tried _ other_failure c e
  connected-SessionOf s t token (ok true) c e h = answer (ls.connect token) refl
    where
      tried : Fetcher
      tried = record t { connections = (token, t.client) ∷ t.connections }

      logged : tried.connections ≡ (token, t.client) ∷ s.connections
      logged = ap (◌∷◌ (token, t.client)) c

      answer :
          (o : Option ℕ)
          → ls.connect token ≡ o
          → SessionOf s (elim o as (λ _. Fetcher × Attempt ℕ) [
            | none ↦ (tried, broken auth_error)
            | some id ↦ (record tried { session = some id; refused = [] }, done id)
          ])
      answer none n = not_connected tried token t.client logged (h refl) e
      answer (some id) n = opened _ token t.client id logged (h refl) n refl

  with_token-SessionOf :
      (s : Fetcher) (c : Client) (t : Result Text)
      → Later s.client.answers c.answers
      → SessionOf s (with_token j ls t (record s { client = c }))
  unfolding with_token
  with_token-SessionOf s c (failed why) l = not_tried (record s { client = c }) auth_error refl refl
  with_token-SessionOf s c (ok token) l =
      let plan = account_is_premium j c in
      connected-SessionOf s (record s { client = plan.0 }) token plan.1 refl refl
        (λ e.
          let (v, confirms, premium) = account_is_premium-confirmed j c e in
          (v, Confirms-Later j v l confirms, premium))

  -- Asking for a session gives the one that is still valid, or ends without a try to connect, or tries
  -- once to connect, with success or not, and then only after the service answered meanwhile, with
  -- success, that the plan is Premium; the session that is then stored is the one that was opened.
  pub ensure_session-SessionOf : (s : Fetcher) → SessionOf s (ensure_session j ls s)
  unfolding ensure_session
  ensure_session-SessionOf s = by_session (valid_session ls s.session) refl
    where
      t : Client × Result Text
      t = access_token j s.client

      by_session :
          (o : Option ℕ)
          → valid_session ls s.session ≡ o
          → SessionOf s (elim o as (λ _. Fetcher × Attempt ℕ) [
            | some id ↦ (s, done id)
            | none ↦ with_token j ls t.1 (record s { client = t.0 })
          ])
      by_session (some id) e = still_valid id e
      by_session none e =
          let cost = Costs-access_token j s.client in with_token-SessionOf s t.0 t.1 cost.later
