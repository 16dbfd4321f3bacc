-- ===== src/Spotify/AccountLaws.antt =====
-- src/spotify.rs: librespot is on only for a plan that the service confirms.
use togewire.Prelude.{◌≡◌, refl, Bool, true, false, some, arith}
use togewire.Config.{set_premium, set_use_librespot, premium}
use togewire.Spotify.Json.{Value}
use togewire.Spotify.Client.{Json, apresolve, product_state, Client, Result, ok, failed, exchange}
use togewire.Spotify.Costs.{Costs, Costs-free, Costs-option, Costs-exchange, Costs-quiet}
use togewire.Spotify.Errors.{
  Confirms, Ended, answered, cooling, refused, send_authed_json-Ended, Ended-Later,
}
use togewire.Spotify.Account.{
  resolve_spclient_host, account_is_premium, plan_is_premium, sync_librespot_for_subscription,
  plan_of, confirmed, is_yes, kept_host,
}

module _ (j : Json) where
  -- A host costs at most one request.
  pub Costs-resolve_spclient_host : (c : Client) → Costs 1 c (resolve_spclient_host j c).0
  unfolding resolve_spclient_host
  Costs-resolve_spclient_host c =
      let r = exchange apresolve c in
      Costs-option 1 c (kept_host c) _ _
        (Costs-quiet 1 c r.0 _ (Costs-exchange apresolve c) refl refl refl) (λ host. Costs-free 1 c)

  premium-Ended :
      (c : Client) (x : Client × Result Value)
      → Ended j c x
      → plan_of x.1 ≡ ok true
      → (v : Value) × Confirms j v c.answers (x.0).answers × (plan_is_premium v ≡ true)
  premium-Ended c _ (answered d v h n) e = (v, h, cc)
  premium-Ended c _ (cooling d secs a b n) e = absurd (cc)
  premium-Ended c _ (refused d why n) e = absurd (cc)

  pub account_is_premium-confirmed :
      (c : Client)
      → (account_is_premium j c).1 ≡ ok true
      → (v : Value) × Confirms j v c.answers (account_is_premium j c).0.answers
        × (plan_is_premium v ≡ true)
  unfolding account_is_premium
  account_is_premium-confirmed c e =
      let h = resolve_spclient_host j c in
      let cost = Costs-resolve_spclient_host c in
      premium-Ended c _
        (Ended-Later j c h.0 _ cost.later (send_authed_json-Ended j (product_state h.1) h.0)) e

  premium-confirmed : (o : Result Bool) → is_yes (confirmed o) ≡ true → o ≡ ok true
  premium-confirmed (failed why) e = cc
  premium-confirmed (ok b) e = cc

  -- If librespot is on after the synchronisation, then the service answered meanwhile with a plan that is
  -- Premium, librespot is not forced off, the plan is kept as Premium, and the result says so.
  pub sync_librespot_for_subscription-confirmed :
      (c : Client)
      → (sync_librespot_for_subscription j c).0.process.use_librespot ≡ true
      → ((v : Value) × Confirms j v c.answers (sync_librespot_for_subscription j c).0.answers
          × (plan_is_premium v ≡ true))
        × ((sync_librespot_for_subscription j c).0.process.force_no_librespot ≡ false)
        × (premium (sync_librespot_for_subscription j c).0.process ≡ some true)
        × ((sync_librespot_for_subscription j c).1 ≡ true)
  unfolding sync_librespot_for_subscription set_use_librespot set_premium premium
  sync_librespot_for_subscription-confirmed c e =
      let yes_plan : is_yes (confirmed (account_is_premium j c).1) ≡ true = ground arith in
      let o = premium-confirmed (account_is_premium j c).1 yes_plan in
      (account_is_premium-confirmed c o, ground arith, ground arith, yes_plan)
