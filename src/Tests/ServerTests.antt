-- ===== src/Tests/ServerTests.antt =====
-- src/server/auth.rs, src/server/mod.rs and src/config.rs at one client and one configuration.
use togewire.Prelude.{
  ℕ, ◌≤◌, true, false, none, some, List, [], ◌∷◌, Text, Text-discrete, ◌=?◌, length, arith, ◌≡◌,
  ◌≢◌, refl, ◌⊎◌,
}
use togewire.Prelude.Int.{pos}
use togewire.Prelude.Maps.{get}
use togewire.Config.{
  Config, Process, parsed, not_found, unreadable, default_config, init, save_spotify_auth,
  or_option, force_no_librespot,
}
use togewire.ConfigLaws.{
  set, apply_all, apply_all-forced, refresh-save_spotify_auth, refresh_of, Started, init-safe,
}
use togewire.Server.Auth.{
  Attempts, Crypto, register_login_attempt, counted, max_entries, session_token, verify_password,
  byte_len, is_setup_token_valid,
}
use togewire.Server.Addresses.{
  Net, v4, is_trusted_proxy, to_canonical, is_private_or_loopback, client_ip, client_key,
}
use togewire.Server.Forwarded.{client_ip-unforgeable}
use togewire.Server.RateLimit.{
  register_login_attempt-bounded, verdicts, answers, verdicts-eq-answers,
}
use togewire.Server.Login.{LoginForm, LoginState, session, open_session, handle_admin_login_post}
use togewire.Server.LoginLaws.{handle_admin_login_post-session}

abbrev client : Text
client = 1 ∷ []

abbrev other : Text
other = 2 ∷ []

abbrev attempts : Attempts
attempts = (client, (4, 1000)) ∷ []

register_login_attempt-bounded_example :
    length (register_login_attempt 2000 other attempts).0 ≤ max_entries
register_login_attempt-bounded_example =
    register_login_attempt-bounded 2000 other attempts (omega arith)

abbrev events : List (ℕ × Text)
events = (2000, client) ∷ (2500, other) ∷ (3000, client) ∷ []

-- The fifth attempt is let through, and the sixth is not.
verdicts-eq-answers_example : verdicts client events attempts ≡ true ∷ false ∷ []
unfolding answers Text-discrete get
verdicts-eq-answers_example =
    verdicts-eq-answers client events attempts 4 1000 refl
      (omega arith, (omega arith, (omega arith, tt))) (omega arith)

-- A hash function that shows its input.
abbrev plain : Crypto
plain = record { sha256 = λ t. t; bcrypt_hash = λ t. some t; bcrypt_verify = λ p h. p =? h }

abbrev secret : Text
secret = 65 ∷ []

abbrev no_text : Text
no_text = []

abbrev configured : Process
configured = record {
  config = record default_config { admin_password_hash = 65 ∷ []; togedemon_token = 66 ∷ [] };
  on_disk = none;
  use_librespot = false;
  force_no_librespot = false;
  plan = 0;
}

abbrev login_state : LoginState
login_state = record {
  process = configured;
  auth = record { attempts = attempts; setup_token = []; pending_hash = [] };
}

abbrev login_form : LoginForm
login_form = record { password = 65 ∷ []; confirm = []; setup_token = [] }

logged_in :
    (handle_admin_login_post plain true client true 2000 login_form login_state).1
    ≡ session (session_token plain (65 ∷ []))
unfolding handle_admin_login_post register_login_attempt get counted verify_password byte_len
    open_session Text-discrete
logged_in = refl

handle_admin_login_post-session_example :
    let s = login_state in
    let r = handle_admin_login_post plain true client true 2000 login_form s in
    (true ≡ true)
    × ((register_login_attempt 2000 client attempts).1 ≡ true)
    × (((secret ≢ []) × (verify_password plain secret secret ≡ true))
        ⊎ ((secret ≡ [])
            × (is_setup_token_valid [] s.auth ≡ true)
            × (verify_password plain [] [] ≡ true)
            × (no_text ≢ [])
            × (r.0.process.config.admin_password_hash ≡ [])
            × (r.0.auth.setup_token ≡ [])))
handle_admin_login_post-session_example =
    handle_admin_login_post-session plain true client true 2000 login_form login_state
      (session_token plain (65 ∷ [])) logged_in

apply_all-forced_example :
    (apply_all (set true ∷ set true ∷ []) (force_no_librespot configured)).use_librespot ≡ false
apply_all-forced_example = apply_all-forced (set true ∷ set true ∷ []) configured

refresh-save_spotify_auth_example :
    let r = save_spotify_auth (pos 100) (1 ∷ []) (some (2 ∷ [])) 3600 true configured in
    (refresh_of r.0 ≡ or_option (some (2 ∷ [])) (refresh_of configured))
    × (r.1 ≡ true)
    × (r.0.on_disk ≡ some r.0.config)
refresh-save_spotify_auth_example =
    refresh-save_spotify_auth (pos 100) (1 ∷ []) (some (2 ∷ [])) 3600 true configured

init-safe_example :
    ((parsed default_config ≡ unreadable)
      × (init (parsed default_config) (7 ∷ []) true configured ≡ none))
    ⊎ ((base : Config) × (q : Process) × ((parsed default_config ≡ parsed base)
          ⊎ ((parsed default_config ≡ not_found) × (base ≡ default_config)))
        × (init (parsed default_config) (7 ∷ []) true configured ≡ some q)
        × Started base q)
init-safe_example = init-safe (parsed default_config) (7 ∷ []) true configured (λ e. ground arith)

abbrev net : Net
net = record { parse = λ t. some (v4 203 0 113 10); print = λ ip. []; print_hex = λ n. [] }

-- The client claims to be someone else, and its proxy says who it is.
client_ip-unforgeable_example :
    (client_ip net (none ∷ some (57 ∷ b',' ∷ 50 ∷ []) ∷ []) (v4 127 0 0 1)
      ≡ client_key net (v4 203 0 113 10))
    × ((is_trusted_proxy (v4 198 51 100 7) ≡ true)
        ⊎ (client_ip net (some (57 ∷ []) ∷ []) (v4 198 51 100 7)
            ≡ client_key net (v4 198 51 100 7)))
unfolding is_trusted_proxy to_canonical is_private_or_loopback
client_ip-unforgeable_example =
    client_ip-unforgeable net (v4 127 0 0 1) (v4 203 0 113 10) (none ∷ []) (57 ∷ []) (50 ∷ [])
      (v4 198 51 100 7) (some (57 ∷ []) ∷ []) (refl, tt) refl refl refl
