-- ===== src/Server/LoginLaws.antt =====
-- src/server/mod.rs: who gets a session, and when the password can be set.
use togewire.Prelude.{
  ℕ, Bool, true, [], Text, Text-discrete, arith, ◌≡◌, ◌≢◌, refl, sym, ap, ◌∙◌, ◌⊎◌, inl, inr,
}
use togewire.Config.{update}
use togewire.Server.Auth.{
  Crypto, register_login_attempt, is_setup_token_valid, verify_password, take_pending_hash,
  clear_setup_token, clear_failed_attempts,
}
use togewire.Server.Login.{
  LoginForm, LoginState, session, open_session, confirm_password, choose_password, set_up,
  handle_admin_login_post,
}

module _ (c : Crypto) (save_works : Bool) (ip : Text) where
  -- The confirm step opens a session only for the password whose hash is pending, and stores it.
  confirm_password-session :
      (form : LoginForm) (s : LoginState) (t : Text)
      → (confirm_password c save_works ip form s).1 ≡ session t
      → (s.auth.pending_hash ≢ [])
        × (verify_password c s.auth.pending_hash form.confirm ≡ true)
        × ((confirm_password c save_works ip form s).0.process.config.admin_password_hash
            ≡ s.auth.pending_hash)
        × ((confirm_password c save_works ip form s).0.auth.setup_token ≡ [])
  unfolding confirm_password open_session take_pending_hash clear_setup_token update
  confirm_password-session form s t h = ground arith

  choose_password-no_session :
      (form : LoginForm) (s : LoginState) (t : Text)
      → (choose_password c save_works ip form s).1 ≢ session t
  unfolding choose_password
  choose_password-no_session form s t h = ground arith

  set_up-session :
      (form : LoginForm) (s : LoginState) (t : Text)
      → (set_up c save_works ip form s).1 ≡ session t
      → (is_setup_token_valid form.setup_token s.auth ≡ true)
        × (s.auth.pending_hash ≢ [])
        × (verify_password c s.auth.pending_hash form.confirm ≡ true)
        × ((set_up c save_works ip form s).0.process.config.admin_password_hash
            ≡ s.auth.pending_hash)
        × ((set_up c save_works ip form s).0.auth.setup_token ≡ [])
  unfolding set_up
  set_up-session form s t h =
      let s' = record s {
        auth = record (s.auth) { attempts = clear_failed_attempts ip s.auth.attempts };
      } in
      let confirmed = confirm_password-session form s' t in
      let chosen = choose_password-no_session form s' t in ground arith

  -- The state after the attempt was counted.
  abbrev tried : ℕ → LoginState → LoginState
  tried now s = record s {
    auth = record (s.auth) { attempts = (register_login_attempt now ip s.auth.attempts).0 };
  }

  module _ (same_origin : Bool) (now : ℕ) (form : LoginForm) (s : LoginState) (t : Text)
      (h : (handle_admin_login_post c save_works ip same_origin now form s).1 ≡ session t) where
    session-allowed :
        (same_origin ≡ true) × ((register_login_attempt now ip s.auth.attempts).1 ≡ true)
    unfolding handle_admin_login_post
    session-allowed = ground arith

    session-known :
        s.process.config.admin_password_hash ≢ []
        → verify_password c s.process.config.admin_password_hash form.password ≡ true
    unfolding handle_admin_login_post
    session-known ne = ground arith

    session-set_up :
        s.process.config.admin_password_hash ≡ []
        → handle_admin_login_post c save_works ip same_origin now form s
          ≡ set_up c save_works ip form (tried now s)
    unfolding handle_admin_login_post Text-discrete
    session-set_up e = let (origin, allowed) = session-allowed in rw (origin, allowed, e) refl

  -- A session is opened only for a post of the same origin, within the rate limit, by someone who knows
  -- the configured password, or, when none is configured yet, who holds the setup token and confirms
  -- the pending password, which is then the configured one; the setup token is used up.
  pub handle_admin_login_post-session :
      (same_origin : Bool) (now : ℕ) (form : LoginForm) (s : LoginState) (t : Text)
      → (handle_admin_login_post c save_works ip same_origin now form s).1 ≡ session t
      → (same_origin ≡ true)
        × ((register_login_attempt now ip s.auth.attempts).1 ≡ true)
        × (((s.process.config.admin_password_hash ≢ [])
              × (verify_password c s.process.config.admin_password_hash form.password ≡ true))
            ⊎ ((s.process.config.admin_password_hash ≡ [])
                × (is_setup_token_valid form.setup_token s.auth ≡ true)
                × (verify_password c s.auth.pending_hash form.confirm ≡ true)
                × (s.auth.pending_hash ≢ [])
                × ((handle_admin_login_post c save_works ip same_origin now form
                      s).0.process.config.admin_password_hash
                    ≡ s.auth.pending_hash)
                × ((handle_admin_login_post c save_works ip same_origin now form
                      s).0.auth.setup_token
                    ≡ [])))
  unfolding is_setup_token_valid
  handle_admin_login_post-session same_origin now form s t h =
      elim (Text-discrete s.process.config.admin_password_hash []) [
        | yes e ↦
            let eq = session-set_up same_origin now form s t h e in
            let (valid, pending, confirmed, stored, used) =
              set_up-session form (tried now s) t (sym (ap (λ r. r.1) eq) ∙ h) in
            let (origin, allowed) = session-allowed same_origin now form s t h in
            (
              origin,
              allowed,
              inr (
                e,
                valid,
                confirmed,
                pending,
                ap (λ r. r.0.process.config.admin_password_hash) eq ∙ stored,
                ap (λ r. r.0.auth.setup_token) eq ∙ used,
              ),
            )
        | no ne ↦
            let (origin, allowed) = session-allowed same_origin now form s t h in
            (origin, allowed, inl (ne, session-known same_origin now form s t h ne))
      ]
