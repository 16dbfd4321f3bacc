-- ===== src/Server/Switches.antt =====
-- src/server/mod.rs: the settings of the admin page, and the connection of togedemon.
use togewire.Prelude.{
  ℕ, Bool, true, false, not, ◌||◌, Option, none, some, List, [], ◌∷◌, Text, ◌=?◌, if◌then◌else◌,
  ◌==◌, max, codes, is_some,
}
use togewire.Prelude.Int.{ℤ}
use togewire.Config.{
  Normalization, update, audio_bitrates, contains, trim, trim_end, has_admin_password,
}
use togewire.Cache.Disk.{starts_with}
use togewire.Cache.Store.{Codec}
use togewire.Cache.Manager.{set_max_mb, clear}
use togewire.Stream.Manager.{play_live}
use togewire.Server.App.{
  AppState, togedemon_event, rebroadcast, stop_stream, start_stream_if_playing, switch_track,
}

-- Where a request is sent on to.
pub data Redirect : Type 0 where
  admin_login player admin : Redirect
  bad_bitrate bad_togematch_api save_failed saved cleared : Redirect

unfoldable pub handle_root : AppState → Redirect
handle_root a =
    if not (has_admin_password a.process.config)
    then admin_login
    else if a.process.config.player_enabled
    then player
    else admin

pub record CacheForm : Type 0 where
  pub cache_max_mb : ℕ
  pub audio_bitrate : Text
  pub normalization : Normalization
  pub low_data_streaming : Option Text
  pub togematch_api : Text

unfoldable pub send_event : AppState → AppState
send_event a = record a { togedemon_events = togedemon_event a.current a ∷ a.togedemon_events }

unfoldable pub is_cancelled : ℕ → List ℕ → Bool
is_cancelled token [] = false
is_cancelled token (t ∷ ts) = (t == token) || is_cancelled token ts

unfoldable pub cancel : Option ℕ → List ℕ → List ℕ
cancel none ts = ts
cancel (some t) ts = t ∷ ts

-- `togedemon_cancel.lock().take()`, with the cancellation of what was there.
unfoldable pub take_togedemon : AppState → AppState
unfolding cancel
take_togedemon a = record a { togedemon = none; cancelled = cancel a.togedemon a.cancelled }

-- `handle_togedemon_push` up to the pump: `token` is the new one, and the old one is cancelled.
unfoldable pub connect_togedemon : ℕ → ℕ → AppState → AppState
unfolding cancel
connect_togedemon now token a = rebroadcast now (record a {
  togedemon = some token;
  cancelled = cancel a.togedemon a.cancelled;
  stream_manager = (play_live a.stream_manager).0;
})

module _ (codec : Codec) where
  unfoldable pub handle_admin_cache : Bool → CacheForm → AppState → AppState × Redirect
  handle_admin_cache works form a =
      if not (contains audio_bitrates form.audio_bitrate)
      then (a, bad_bitrate)
      else (let api = trim_end (λ ch. ch == b'/') (trim form.togematch_api) in
          if not
            ((api =? []) || starts_with (codes "http://") api || starts_with (codes "https://") api)
          then (a, bad_togematch_api)
          else (let mb = max form.cache_max_mb 64 in
              let r =
                update
                  (λ cfg. record cfg {
                    cache_max_mb = mb;
                    audio_bitrate = form.audio_bitrate;
                    normalization = form.normalization;
                    low_data_streaming = is_some form.low_data_streaming;
                    togematch_api = api;
                  })
                  works a.process in
              let a' = record a { process = r.0 } in
              if not r.1 then (a', save_failed) else (
                record a' {
                  preparer = record (a'.preparer) { cache = set_max_mb codec mb a'.preparer.cache };
                },
                saved,
              )))

  unfoldable pub handle_admin_cache_clear : AppState → AppState × Redirect
  handle_admin_cache_clear a = (
    record a { preparer = record (a.preparer) { cache = clear codec a.preparer.cache } },
    cleared,
  )

  -- Whether the setting was saved.
  unfoldable pub handle_admin_player : Bool → ℤ → ℕ → Bool → AppState → AppState × Bool
  handle_admin_player works unix now enabled a =
      let r = update (λ cfg. record cfg { player_enabled = enabled }) works a.process in
      let a' = record a { process = r.0 } in
      if not r.1
      then (a', false)
      else if enabled
      then (send_event (start_stream_if_playing codec unix now a'), true)
      else (send_event (record (stop_stream (take_togedemon a')) { ws_clients = [] }), true)

  -- `handle_togedemon_push` after the pump, of a togedemon whose token is `token`.
  unfoldable pub disconnect_togedemon : ℤ → ℕ → ℕ → AppState → AppState
  disconnect_togedemon unix now token a =
      if is_cancelled token a.cancelled
      then a
      else (let a' = stop_stream (record a { togedemon = none }) in
          elim a'.current [
            | none ↦ a'
            | some s ↦ elim s.track [ none ↦ a' | some t ↦ switch_track codec unix now s t.id a' ]
          ])
