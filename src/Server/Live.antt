-- ===== src/Server/Live.antt =====
-- src/server/mod.rs: what switching the player off closes, and what it misses.
use togewire.Prelude.{
  ℕ, ◌+◌, ◌%◌, ap, ◌∙◌, is_some, if◌then◌else◌, Bool, Option, true, false, none, some, List, [],
  ◌∷◌, Text, arith, ◌≡◌, refl, inl,
}
use togewire.Prelude.Int.{ℤ}
use togewire.Prelude.Maps.{insert, remove, keys}
use togewire.Types.{SpotifyState, Track}
use togewire.Prelude.Words.{u64_modulus}
use togewire.Config.{update, save}
use togewire.Cache.Store.{Codec}
use togewire.Stream.Manager.{stop, swap_pipe}
use togewire.Server.App.{
  AppState, TrackUpdate, maybe_play, stop_stream, has_failed, track_update_message, try_send,
}
use togewire.Server.Connections.{handle_stream, handle_ws, player_disabled, snapshot, open_socket}
use togewire.Server.Switches.{handle_admin_player, take_togedemon, send_event}

-- The sockets and the flags of the process are those of the state before.
abbrev Kept : AppState → AppState → Type 0
Kept a b = (b.ws_clients ≡ a.ws_clients) × (b.process ≡ a.process)

has_failed-Kept : (now : ℕ) (t : Option Track) (a : AppState) → Kept a (has_failed now t a).0
unfolding has_failed
has_failed-Kept now none a = (refl, refl)
has_failed-Kept now (some t) a = (refl, refl)

chosen-Kept :
    (a b : AppState) (m n : List TrackUpdate) (on : Bool)
    → Kept a b
    → Kept a (if◌then◌else◌ {A = AppState × List TrackUpdate} on (b, m) (a, n)).0
chosen-Kept a b m n true k = k
chosen-Kept a b m n false k = (refl, refl)

snapshot-Kept : (now : ℕ) (a : AppState) → Kept a (snapshot now a).0
unfolding snapshot track_update_message
snapshot-Kept now a = go a.current
  where
    go :
        (o : Option SpotifyState)
        → Kept a
            (elim o as (λ x. AppState × List TrackUpdate) [
              | none ↦ (a, [])
              | some s ↦
                  if is_some s.track
                  then (let r = track_update_message now s a in (r.0, try_send r.1 []))
                  else (a, [])
            ]).0
    go none = (refl, refl)
    go (some s) = chosen-Kept a _ _ _ (is_some s.track) (has_failed-Kept now s.track a)

-- The first socket of a state that has none.
open_socket-first :
    (now : ℕ) (a : AppState)
    → a.ws_clients ≡ []
    → (keys (open_socket now a).0.ws_clients ≡ (open_socket now a).1 ∷ [])
      × ((open_socket now a).0.process ≡ a.process)
unfolding open_socket insert remove
open_socket-first now a e =
    let kept = snapshot-Kept now (record a { next_id = (a.next_id + 1) % u64_modulus }) in
    (rw (kept.0 ∙ e) refl, kept.1)

module _ (codec : Codec) where
  -- Once the player is switched off and that is saved, nothing is left that hears it: no togedemon is
  -- live, no socket is registered and no file plays; a stream or a socket that is then asked for is
  -- refused, and a file that is then to be played is not.
  pub handle_admin_player-closes :
      (unix : ℤ) (now later : ℕ) (ip path : Text) (s : SpotifyState) (a : AppState)
      → let b = (handle_admin_player codec true unix now false a).0 in
        (b.togedemon ≡ none)
        × (b.ws_clients ≡ [])
        × (b.stream_manager.playing_file ≡ false)
        × (handle_stream later ip b ≡ (b, inl player_disabled))
        × (handle_ws ip b ≡ (b, some player_disabled))
        × (maybe_play path s b ≡ (b, false))
  unfolding handle_admin_player update save take_togedemon send_event stop_stream stop swap_pipe
      handle_stream handle_ws maybe_play
  handle_admin_player-closes unix now later ip path s a =
      (refl, refl, refl, refl, refl, ground arith)

  -- When a socket is let in, then the player is switched off and that is saved, and then the socket is
  -- set up: it was let in while the player was on, and switching off left no socket and lets no other
  -- in, but this one is registered, the only one, with the player off.
  pub open_socket-after_off :
      (unix : ℤ) (now later : ℕ) (ip : Text) (a let_in : AppState)
      → handle_ws ip a ≡ (let_in, none)
      → let b = (handle_admin_player codec true unix now false let_in).0 in
        let r = open_socket later b in
        (a.process.config.player_enabled ≡ true)
        × (b.ws_clients ≡ [])
        × (handle_ws ip b ≡ (b, some player_disabled))
        × (keys r.0.ws_clients ≡ r.1 ∷ [])
        × (r.0.process.config.player_enabled ≡ false)
  unfolding handle_admin_player update save take_togedemon send_event stop_stream stop swap_pipe
      handle_ws
  open_socket-after_off unix now later ip a let_in e =
      let b = (handle_admin_player codec true unix now false let_in).0 in
      let first = open_socket-first later b refl in
      (ground arith, refl, refl, first.0, ap (λ p. p.config.player_enabled) first.1)
