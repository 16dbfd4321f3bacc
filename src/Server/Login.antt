-- ===== src/Server/Login.antt =====
-- src/server/mod.rs: `handle_admin_login_post`.
use togewire.Prelude.{
  ℕ, Bool, not, ◌&&◌, ◌||◌, none, some, [], Text, ◌=?◌, if◌then◌else◌, ltb, length,
}
use togewire.Config.{Process, update, has_admin_password}
use togewire.Server.Auth.{
  Crypto, AuthState, register_login_attempt, clear_failed_attempts, is_setup_token_valid,
  set_pending_hash, take_pending_hash, clear_setup_token, verify_password, session_token, byte_len,
}

pub record LoginForm : Type 0 where
  pub password : Text
  pub confirm : Text
  pub setup_token : Text

-- The step of a login page, and why it is shown.
pub data PageStep : Type 0 where
  login token password_step confirm_step : PageStep

pub data Notice : Type 0 where
  no_notice too_many_attempts invalid_setup_token password_too_short password_too_long : Notice
  hashing_failed passwords_differ saving_failed invalid_password : Notice

-- A login page carries the setup token on; a session is the cookie's token.
pub data Reply : Type 0 where
  cross_site : Reply
  login_page : PageStep → Text → Notice → Reply
  session : Text → Reply

abbrev pub min_admin_password_len : ℕ
min_admin_password_len = 8

-- The configuration beside the state of src/server/auth.rs.
pub record LoginState : Type 0 where
  pub process : Process
  pub auth : AuthState

first_login_step : Process → PageStep
first_login_step p = if has_admin_password p.config then login else token

module _ (c : Crypto) (save_works : Bool) (ip : Text) where
  -- The lines at the end: the session of the hash that is configured by then.
  unfoldable pub open_session : LoginState → LoginState × Reply
  open_session s = (
    record s { auth = record (s.auth) { attempts = clear_failed_attempts ip s.auth.attempts } },
    session (session_token c s.process.config.admin_password_hash),
  )

  -- The confirm step of the first-time setup.
  unfoldable pub confirm_password : LoginForm → LoginState → LoginState × Reply
  confirm_password form s =
      let taken = take_pending_hash s.auth in
      let hash = taken.1 in
      let s' = record s { auth = taken.0 } in
      if (hash =? []) || not (verify_password c hash form.confirm)
      then (s', login_page password_step form.setup_token passwords_differ)
      else (let saved =
            update (λ cfg. record cfg { admin_password_hash = hash }) save_works s'.process in
          let s'' = record s' { process = saved.0 } in
          if saved.1
          then open_session (record s'' { auth = clear_setup_token s''.auth })
          else (s'', login_page password_step form.setup_token saving_failed))

  -- The password step of the first-time setup.
  unfoldable pub choose_password : LoginForm → LoginState → LoginState × Reply
  choose_password form s =
      if ltb (length form.password) min_admin_password_len
      then (s, login_page password_step form.setup_token password_too_short)
      else if ltb 72 (byte_len form.password)
      then (s, login_page password_step form.setup_token password_too_long)
      else elim (c.bcrypt_hash form.password) [
        | none ↦ (s, login_page password_step form.setup_token hashing_failed)
        | some hash ↦ (
          record s { auth = set_pending_hash hash s.auth },
          login_page confirm_step form.setup_token no_notice,
        )
      ]

  -- First-time setup: each step re-sends the token, and only the field it asked for.
  unfoldable pub set_up : LoginForm → LoginState → LoginState × Reply
  set_up form s =
      if is_setup_token_valid form.setup_token s.auth
      then (let s' = record s {
        auth = record (s.auth) { attempts = clear_failed_attempts ip s.auth.attempts };
      } in
          if (form.password =? []) && (form.confirm =? [])
          then (s', login_page password_step form.setup_token no_notice)
          else if form.confirm =? []
          then choose_password form s'
          else confirm_password form s')
      else (s, login_page token [] invalid_setup_token)

  unfoldable pub handle_admin_login_post : Bool → ℕ → LoginForm → LoginState → LoginState × Reply
  unfolding first_login_step
  handle_admin_login_post same_origin now form s =
      if not same_origin
      then (s, cross_site)
      else (let tried = register_login_attempt now ip s.auth.attempts in
          let s' = record s { auth = record (s.auth) { attempts = tried.0 } } in
          let admin_hash = s.process.config.admin_password_hash in
          if not tried.1
          then (s', login_page (first_login_step s.process) [] too_many_attempts)
          else if admin_hash =? []
          then set_up form s'
          else if verify_password c admin_hash form.password
          then open_session s'
          else (s', login_page login [] invalid_password))
