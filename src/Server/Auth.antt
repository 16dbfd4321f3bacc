-- ===== src/Server/Auth.antt =====
-- src/server/auth.rs, with `hex` of src/lib.rs: login attempts, sessions and setup tokens.
use togewire.Prelude.{
  ℕ, zero, suc, ◌+◌, ◌-◌, ◌*◌, ◌/◌, ◌%◌, Bool, false, not, ◌&&◌, Option, none, some, List, [], ◌∷◌,
  ◌++◌, Text, Text-discrete, ◌=?◌, if◌then◌else◌, ltb, leb, length, codes, map, is_some,
}
use togewire.Prelude.Maps.{get, insert, remove}

abbrev pub max_login_attempts : ℕ
max_login_attempts = 5

-- 30 minutes, in milliseconds.
abbrev pub rate_limit_window : ℕ
rate_limit_window = 30 * 60 * 1000

abbrev pub max_entries : ℕ
max_entries = 1_000

-- Client IP → (attempts, window start).
abbrev pub Attempts : Type 0
Attempts = List (Text × (ℕ × ℕ))

-- The clock never runs backwards; `elapsed` is 0 before the start.
abbrev pub elapsed : ℕ → ℕ → ℕ
elapsed now start = now - start

unfoldable pub retain_recent : ℕ → Attempts → Attempts
retain_recent now [] = []
retain_recent now ((ip, (n, start)) ∷ m) =
    let rest = retain_recent now m in
    if ltb (elapsed now start) rate_limit_window then (ip, (n, start)) ∷ rest else rest

-- `min_by_key`: the first of the entries with the earliest start.
unfoldable pub oldest_from : Text → ℕ → Attempts → Text
oldest_from ip start [] = ip
oldest_from ip start ((ip', (n', start')) ∷ m) =
    oldest_from (if ltb start' start then ip' else ip) (if ltb start' start then start' else start)
      m

-- The `while` loop of `make_room`, on fuel.
unfoldable pub drop_oldest : ℕ → Attempts → Attempts
drop_oldest zero m = m
drop_oldest (suc fuel) [] = []
drop_oldest (suc fuel) ((ip, (n, start)) ∷ m) =
    let rest =
      drop_oldest fuel (remove Text-discrete (oldest_from ip start m) ((ip, (n, start)) ∷ m)) in
    if leb max_entries (length ((ip, (n, start)) ∷ m)) then rest else (ip, (n, start)) ∷ m

unfoldable pub make_room : ℕ → Attempts → Attempts
make_room now m = let recent = retain_recent now m in drop_oldest (length recent) recent

-- The entry of `ip` after this attempt.
unfoldable pub counted : ℕ → Option (ℕ × ℕ) → ℕ × ℕ
counted now none = (1, now)
counted now (some (n, start)) =
    if ltb rate_limit_window (elapsed now start) then (1, now) else (n + 1, start)

-- Count a login attempt; false once it is over the limit for this window.
unfoldable pub register_login_attempt : ℕ → Text → Attempts → Attempts × Bool
register_login_attempt now ip attempts =
    let roomy =
      if not (is_some (get Text-discrete ip attempts)) && leb max_entries (length attempts)
      then make_room now attempts
      else attempts in
    let entry = counted now (get Text-discrete ip roomy) in
    (insert Text-discrete ip entry roomy, leb entry.0 max_login_attempts)

unfoldable pub clear_failed_attempts : Text → Attempts → Attempts
clear_failed_attempts ip attempts = remove Text-discrete ip attempts

hex_digit : ℕ → ℕ
hex_digit d = if ltb d 10 then 48 + d else 87 + d

-- src/lib.rs: two lower-case digits for each byte.
unfoldable pub hex : List ℕ → Text
unfolding hex_digit
hex [] = []
hex (b ∷ bs) = hex_digit (b / 16) ∷ hex_digit (b % 16) ∷ hex bs

-- SHA-256 and bcrypt: the hash of a password if it can be computed, and the check of one.
pub record Crypto : Type 0 where
  pub sha256 : Text → List ℕ
  pub bcrypt_hash : Text → Option Text
  pub bcrypt_verify : Text → Text → Bool

unfoldable pub session_token : Crypto → Text → Text
unfolding hex
session_token c admin_hash = hex (c.sha256 admin_hash)

unfoldable pub is_valid_session : Crypto → Text → Text → Bool
is_valid_session c admin_hash token =
    not (admin_hash =? []) && (session_token c admin_hash =? token)

-- The length of a text in UTF-8.
unfoldable pub len_utf8 : ℕ → ℕ
len_utf8 c = if ltb c 0x80 then 1 else if ltb c 0x800 then 2 else if ltb c 0x10000 then 3 else 4

unfoldable pub byte_len : Text → ℕ
unfolding len_utf8
byte_len [] = 0
byte_len (c ∷ s) = len_utf8 c + byte_len s

unfoldable pub verify_password : Crypto → Text → Text → Bool
unfolding byte_len
verify_password c hash password =
    if ltb 72 (byte_len password) then false else c.bcrypt_verify password hash

unfoldable pub session_cookie : Bool → Text → Text
session_cookie secure token =
    codes "togewire_session="
    ++ token
    ++ codes "; Path=/; Max-Age=34560000; HttpOnly"
    ++ (if secure then codes "; Secure" else [])
    ++ codes "; SameSite=Lax"

-- The process-wide state of src/server/auth.rs.
pub record AuthState : Type 0 where
  pub attempts : Attempts
  pub setup_token : Text
  pub pending_hash : Text

abbrev pub alphabet : Text
alphabet = codes "ABCDEFGHJKLMNPQRSTUVWXYZ23456789"

unfoldable pub char_at : ℕ → Text → ℕ
char_at i [] = 0
char_at zero (c ∷ s) = c
char_at (suc i) (c ∷ s) = char_at i s

-- From eight random bytes.
unfoldable pub generate_setup_token : List ℕ → AuthState → AuthState × Text
unfolding char_at
generate_setup_token bytes s =
    let token = map (λ b. char_at (b % 32) alphabet) bytes in
    (record s { setup_token = token }, token)

unfoldable pub is_setup_token_valid : Text → AuthState → Bool
is_setup_token_valid token s = not (s.setup_token =? []) && (s.setup_token =? token)

unfoldable pub clear_setup_token : AuthState → AuthState
clear_setup_token s = record s { setup_token = []; pending_hash = [] }

unfoldable pub set_pending_hash : Text → AuthState → AuthState
set_pending_hash hash s = record s { pending_hash = hash }

unfoldable pub take_pending_hash : AuthState → AuthState × Text
take_pending_hash s = (record s { pending_hash = [] }, s.pending_hash)
