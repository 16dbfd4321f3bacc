-- ===== src/ConfigLaws.antt =====
-- src/config.rs: what holds of the configuration whatever is stored in it.
use togewire.Prelude.{
  if◌then◌else◌, ℕ, Bool, true, false, Option, none, some, List, [], ◌∷◌, Text, Text-discrete,
  arith, ◌≡◌, ◌≢◌, refl, ◌⊎◌, inl, inr,
}
use togewire.Prelude.Int.{ℤ}
use togewire.Config.{
  Config, default_config, Process, Loaded, parsed, not_found, unreadable, audio_bitrates, contains,
  audio_bitrate, init, save_spotify_auth, or_option, set_use_librespot, force_no_librespot, save,
}

-- The bitrate that reaches ffmpeg is one of the four offered, whatever the file says.
pub contains-audio_bitrate : (c : Config) → contains audio_bitrates (audio_bitrate c) ≡ true
unfolding audio_bitrate
contains-audio_bitrate c = ground arith

-- A sequence of settings of the librespot flag, at startup and after each check of the plan.
pub data Setting : Type 0 where
  set : Bool → Setting
  force : Setting

unfoldable pub apply_all : List Setting → Process → Process
apply_all [] p = p
apply_all (set on ∷ ss) p = apply_all ss (set_use_librespot on p)
apply_all (force ∷ ss) p = apply_all ss (force_no_librespot p)

apply_all-off :
    (ss : List Setting) (p : Process)
    → p.force_no_librespot ≡ true
    → p.use_librespot ≡ false
    → (apply_all ss p).use_librespot ≡ false
unfolding apply_all set_use_librespot force_no_librespot
apply_all-off [] p f u = u
apply_all-off (set on ∷ ss) p f u = apply_all-off ss (set_use_librespot on p) f (ground arith)
apply_all-off (force ∷ ss) p f u = apply_all-off ss (force_no_librespot p) refl refl

-- Once `--no-librespot` was given, no later setting turns librespot on.
pub apply_all-forced :
    (ss : List Setting) (p : Process) → (apply_all ss (force_no_librespot p)).use_librespot ≡ false
unfolding force_no_librespot
apply_all-forced ss p = apply_all-off ss (force_no_librespot p) refl refl

abbrev pub refresh_of : Process → Option Text
refresh_of p = elim p.config.spotify_auth [ none ↦ none | some a ↦ a.refresh_token ]

-- A refresh token is never lost: a reply without one keeps the old one, and a reply with one stores
-- it. What is then in memory is also on disk, if it could be written, and otherwise the old file stays.
pub refresh-save_spotify_auth :
    (now : ℤ) (access : Text) (refresh : Option Text) (secs : ℕ) (works : Bool) (p : Process)
    → (refresh_of (save_spotify_auth now access refresh secs works p).0
        ≡ or_option refresh (refresh_of p))
      × ((save_spotify_auth now access refresh secs works p).1 ≡ works)
      × ((save_spotify_auth now access refresh secs works p).0.on_disk ≡ (
          if works
          then some (save_spotify_auth now access refresh secs works p).0.config
          else p.on_disk))
unfolding save_spotify_auth
refresh-save_spotify_auth now access refresh secs works p =
    (ground arith, ground arith, ground arith)

-- What a start that goes on makes of the configuration that it found: a push token that is not empty,
-- the one that it found if there was one, and all else as it was found.
pub record Started (base : Config) (q : Process) : Type 0 where
  pub others : q.config ≡ record base { togedemon_token = q.config.togedemon_token }
  pub present : q.config.togedemon_token ≢ []
  pub kept : (base.togedemon_token ≡ []) ⊎ (q.config.togedemon_token ≡ base.togedemon_token)

init-Started :
    (base : Config) (fresh : Text) (works : Bool) (p : Process)
    → fresh ≢ []
    → (q : Process) × (init (parsed base) fresh works p ≡ some q) × Started base q
unfolding init
init-Started base fresh works p h = elim (Text-discrete base.togedemon_token []) [
  | yes e ↦ (
    record ((save works (record base { togedemon_token = fresh }) p).0) {
      config = record base { togedemon_token = fresh };
    },
    ground arith,
    record { others = refl; present = h; kept = inl e },
  )
  | no ne ↦ (
    record p { config = base },
    ground arith,
    record { others = refl; present = ne; kept = inr refl },
  )
]

-- A configuration file that is there but cannot be read ends the process.
-- With any other, and a random token that is not empty at hand, the start goes on: with the
-- configuration of the file, or the defaults where there is no file, unchanged but for a push token
-- where that was empty.
pub init-safe :
    (l : Loaded) (fresh : Text) (works : Bool) (p : Process)
    → fresh ≢ []
    → ((l ≡ unreadable) × (init l fresh works p ≡ none))
      ⊎ ((base : Config) × (q : Process) × ((l ≡ parsed base)
            ⊎ ((l ≡ not_found) × (base ≡ default_config)))
          × (init l fresh works p ≡ some q)
          × Started base q)
unfolding init
init-safe unreadable fresh works p h = inl (refl, refl)
init-safe not_found fresh works p h = inr (
  default_config,
  record ((save works (record default_config { togedemon_token = fresh }) p).0) {
    config = record default_config { togedemon_token = fresh };
  },
  inr (refl, refl),
  refl,
  record { others = refl; present = h; kept = inl refl },
)
init-safe (parsed loaded) fresh works p h =
    let (q, e, s) = init-Started loaded fresh works p h in inr (loaded, q, inl refl, e, s)
