-- ===== src/Spotify/ProgressLaws.antt =====
-- src/spotify.rs: what `get_current_track` reports.
use togewire.Prelude.{
  ◌≡◌, refl, ◌∙◌, ap, subst, ◌⊎◌, inl, inr, true, false, Option, none, some, Text, arith,
  Option-cases, Bool-cases,
}
use togewire.Prelude.Int.{ℤ, pos, ◌≤ℤ◌, ◌+ℤ◌, ltb_ℤ}
use togewire.Prelude.Words.{wrap_i64}
use togewire.Types.{Track, SpotifyState}
use togewire.Spotify.Json.{Value}
use togewire.Spotify.Snapshot.{ConnectStateSnapshot, parse_connect_state_snapshot}
use togewire.Spotify.SnapshotLaws.{parse_connect_state_snapshot-IsTime}
use togewire.Spotify.Client.{Json, Client, Result, ok, failed, connect_state, current_unix_ms}
use togewire.Spotify.Requests.{send_authed_json}
use togewire.Spotify.Account.{resolve_spclient_host}
use togewire.Spotify.Playback.{
  past_end, played, fetch_connect_state_snapshot, fetch_track_metadata, build_track_from_uri,
  get_current_track, current_of, snapshot_reply, snapshot_result, report,
}

-- The progress is not negative, and a track that plays is short of its end by the grace of two seconds.
abbrev pub IsCurrent : SpotifyState → Type 0
IsCurrent s =
    (pos 0 ≤ℤ s.progress)
    × ((s.is_playing ≡ false)
        ⊎ ((t : Track) × (s.track ≡ some t)
            × ((t.duration ≤ℤ pos 0)
                ⊎ (ltb_ℤ s.progress (wrap_i64 (t.duration +ℤ pos 2000)) ≡ true))))

-- What `past_end` says of the state: that it stops, or that it is not past the end.
ended-positive :
    (track : Track) (s : ConnectStateSnapshot) → past_end track s ≡ true → pos 0 ≤ℤ track.duration
unfolding past_end
ended-positive track s e = ground arith

going :
    (track : Track) (s : ConnectStateSnapshot)
    → past_end track s ≡ false
    → (s.is_playing ≡ false)
      ⊎ ((track.duration ≤ℤ pos 0)
          ⊎ (ltb_ℤ s.progress_ms (wrap_i64 (track.duration +ℤ pos 2000)) ≡ true))
unfolding past_end
going track s e = ground arith

snapshot_reply-progress :
    (now : ℤ) (o : Result Value) (s : ConnectStateSnapshot)
    → snapshot_reply now o ≡ ok s
    → pos 0 ≤ℤ s.progress_ms
snapshot_reply-progress now (failed why) s h = absurd (cc)
snapshot_reply-progress now (ok payload) s h =
    elim (Option-cases (parse_connect_state_snapshot now payload)) [
      | inl e ↦ let bad = ap snapshot_result e in absurd (cc)
      | inr (x, e) ↦
          let bad = ap snapshot_result e in
          let eq : x ≡ s = cc in
          let (time, _) = parse_connect_state_snapshot-IsTime now payload s (e ∙ ap some eq) in
          time.0
    ]

module _ (j : Json) where
  IsCurrent-played :
      (track : Track) (s : ConnectStateSnapshot) (c : Client)
      → pos 0 ≤ℤ s.progress_ms
      → IsCurrent (played j track s c).1
  unfolding played
  IsCurrent-played track s c h = elim (Bool-cases (past_end track s)) [
    | inl e ↦ rw e (ended-positive track s e, inl refl)
    | inr e ↦ elim (going track s e) [
      | inl stopped ↦ rw e (h, inl stopped)
      | inr short ↦ rw e (h, inr (track, refl, short))
    ]
  ]

  IsCurrent-current_of :
      (s : ConnectStateSnapshot) (uri : Option Text) (c : Client)
      → pos 0 ≤ℤ s.progress_ms
      → IsCurrent (current_of j s uri c).1
  unfolding current_of
  IsCurrent-current_of s none c h = (omega arith, inl refl)
  IsCurrent-current_of s (some uri) c h =
      let m = fetch_track_metadata j uri c in
      IsCurrent-played (build_track_from_uri uri m.1 s.current_track_fallback s.duration_ms) s m.0 h

  IsCurrent-report :
      (c : Client) (o : Result ConnectStateSnapshot) (state : SpotifyState)
      → ((s : ConnectStateSnapshot) → o ≡ ok s → pos 0 ≤ℤ s.progress_ms)
      → (report j c o).1 ≡ ok state
      → IsCurrent state
  unfolding report
  IsCurrent-report c (failed why) state h k = absurd (cc)
  IsCurrent-report c (ok s) state h k =
      let eq : (current_of j s s.current_track_uri c).1 ≡ state = cc in
      subst IsCurrent eq (IsCurrent-current_of s s.current_track_uri c (h s refl))

  -- Whatever Spotify answers, the state that is reported has a progress that is not negative, and says
  -- that it plays only with a track that has no known duration or whose progress is short of its
  -- duration and two seconds.
  pub get_current_track-IsCurrent :
      (c : Client) (state : SpotifyState) → (get_current_track j c).1 ≡ ok state → IsCurrent state
  unfolding get_current_track fetch_connect_state_snapshot
  get_current_track-IsCurrent c state h =
      let host = resolve_spclient_host j c in
      let r = send_authed_json j (connect_state host.1) host.0 in
      let now = current_unix_ms r.0 in
      IsCurrent-report r.0 (snapshot_reply now r.1) state (snapshot_reply-progress now r.1) h
