-- ===== src/Config.antt =====
-- src/config.rs: the configuration, its updates and the process-wide flags.
use mathlib.Core.List.{reverse}
use togewire.Prelude.{
  ℕ, Bool, true, false, not, ◌&&◌, ◌||◌, Option, none, some, List, [], ◌∷◌, Text, ◌=?◌,
  if◌then◌else◌, leb, ◌==◌, codes, max, is_some,
}
use togewire.Prelude.Int.{ℤ, pos, ◌+ℤ◌}
use togewire.Prelude.Words.{as_i64, wrap_i64}

pub record SpotifyAuth : Type 0 where
  pub access_token : Text
  pub refresh_token : Option Text
  pub expires_at_unix : ℤ

pub data Normalization : Type 0 where
  off stream cache : Normalization

pub data CoverArt : Type 0 where
  listed original : CoverArt

pub record Config : Type 0 where
  pub log_level : Text
  pub admin_password_hash : Text
  pub togedemon_token : Text
  pub cache_max_mb : ℕ
  pub audio_bitrate : Text
  pub normalization : Normalization
  pub low_data_streaming : Bool
  pub player_enabled : Bool
  pub togematch_api : Text
  pub cover_art : CoverArt
  pub spotify_auth : Option SpotifyAuth

abbrev pub audio_bitrates : List Text
audio_bitrates = codes "112k" ∷ codes "144k" ∷ codes "192k" ∷ codes "256k" ∷ []

abbrev pub default_bitrate : Text
default_bitrate = codes "144k"

abbrev pub default_config : Config
default_config = record {
  log_level = codes "info";
  admin_password_hash = [];
  togedemon_token = [];
  cache_max_mb = 2048;
  audio_bitrate = default_bitrate;
  normalization = off;
  low_data_streaming = false;
  player_enabled = false;
  togematch_api = [];
  cover_art = listed;
  spotify_auth = none;
}

unfoldable pub is_authenticated : Config → Bool
is_authenticated c = is_some c.spotify_auth

unfoldable pub has_admin_password : Config → Bool
has_admin_password c = not (c.admin_password_hash =? [])

-- What `fs::read_to_string` and the parser of the file give; the flags of the process beside the
-- configuration in memory and the one on disk.
pub data Loaded : Type 0 where
  parsed : Config → Loaded
  not_found : Loaded
  unreadable : Loaded

pub record Process : Type 0 where
  pub config : Config
  pub on_disk : Option Config
  pub use_librespot : Bool
  pub force_no_librespot : Bool
  pub plan : ℕ

-- A failure of `save` leaves the old file: the write goes to a temporary file that is then renamed.
unfoldable pub save : Bool → Config → Process → Process × Bool
save works cfg p = if works then (record p { on_disk = some cfg }, true) else (p, false)

-- `none` is the exit of the process. `fresh` is the random token of a first run.
unfoldable pub init : Loaded → Text → Bool → Process → Option Process
unfolding save
init unreadable fresh works p = none
init not_found fresh works p =
    let cfg = record default_config { togedemon_token = fresh } in
    some (record ((save works cfg p).0) { config = cfg })
init (parsed loaded) fresh works p =
    if loaded.togedemon_token =? []
    then (let cfg = record loaded { togedemon_token = fresh } in
        some (record ((save works cfg p).0) { config = cfg }))
    else some (record p { config = loaded })

-- Apply `f` under the write lock, then persist.
unfoldable pub update : (Config → Config) → Bool → Process → Process × Bool
unfolding save
update f works p = save works (f p.config) (record p { config = f p.config })

kept_refresh : Option SpotifyAuth → Option Text
kept_refresh none = none
kept_refresh (some a) = a.refresh_token

abbrev pub or_option : Option Text → Option Text → Option Text
or_option (some a) b = some a
or_option none b = b

unfoldable pub save_spotify_auth : ℤ → Text → Option Text → ℕ → Bool → Process → Process × Bool
unfolding update kept_refresh
save_spotify_auth now access_token refresh_token expires_in_secs works p =
    update
      (λ cfg. record cfg {
        spotify_auth = some (record {
          access_token = access_token;
          refresh_token = or_option refresh_token (kept_refresh cfg.spotify_auth);
          expires_at_unix = wrap_i64 (now +ℤ as_i64 (max expires_in_secs 60));
        });
      })
      works p

expire : Option SpotifyAuth → Option SpotifyAuth
expire none = none
expire (some a) = some (record a { expires_at_unix = pos 0 })

unfoldable pub invalidate_spotify_access_token : Process → Process
unfolding expire
invalidate_spotify_access_token p = record p {
  config = record (p.config) { spotify_auth = expire p.config.spotify_auth };
}

unfoldable pub set_use_librespot : Bool → Process → Process
set_use_librespot on p = record p { use_librespot = on && not p.force_no_librespot }

unfoldable pub force_no_librespot : Process → Process
force_no_librespot p = record p { force_no_librespot = true; use_librespot = false }

unfoldable pub premium : Process → Option Bool
premium p = if p.plan == 1 then some false else if p.plan == 2 then some true else none

unfoldable pub set_premium : Option Bool → Process → Process
set_premium none p = record p { plan = 0 }
set_premium (some false) p = record p { plan = 1 }
set_premium (some true) p = record p { plan = 2 }

unfoldable pub contains : List Text → Text → Bool
contains [] t = false
contains (x ∷ xs) t = (x =? t) || contains xs t

unfoldable pub audio_bitrate : Config → Text
unfolding contains
audio_bitrate c =
    if contains audio_bitrates c.audio_bitrate then c.audio_bitrate else default_bitrate

-- `char::is_whitespace`: the code points that Unicode calls White_Space.
unfoldable pub is_whitespace : ℕ → Bool
is_whitespace c =
    (leb 9 c && leb c 13)
    || c == 32
    || c == 0x85
    || c == 0xA0
    || c == 0x1680
    || (leb 0x2000 c && leb c 0x200A)
    || c == 0x2028
    || c == 0x2029
    || c == 0x202F
    || c == 0x205F
    || c == 0x3000

unfoldable pub trim_start : (ℕ → Bool) → Text → Text
trim_start p [] = []
trim_start p (c ∷ s) = if p c then trim_start p s else c ∷ s

unfoldable pub trim_end : (ℕ → Bool) → Text → Text
unfolding trim_start
trim_end p s = reverse (trim_start p (reverse s))

unfoldable pub trim : Text → Text
unfolding trim_start trim_end is_whitespace
trim s = trim_end is_whitespace (trim_start is_whitespace s)

-- The address, without the slashes at its end; `None` if nothing is left.
unfoldable pub togematch_api : Config → Option Text
unfolding trim trim_end
togematch_api c =
    let url = trim_end (λ ch. ch == b'/') (trim c.togematch_api) in
    if url =? [] then none else some url
