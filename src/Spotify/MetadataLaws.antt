-- ===== src/Spotify/MetadataLaws.antt =====
-- src/spotify.rs: the cached metadata: its size, and that it spares requests.
use togewire.Prelude.{
  ℕ, suc, ◌+◌, ◌≤◌, ◌≡◌, refl, ◌⊎◌, inl, inr, true, false, Option, none, some, List, [], Text,
  Text-discrete, count, arith, length, ltb, Option-cases, Bool-cases,
}
use togewire.Prelude.Maps.{get, insert, get-insert_self, length-remove-le, IsMap, IsMap-insert}
use togewire.Types.{Track, is_empty}
use togewire.Spotify.Uris.{track_id_from_uri}
use togewire.Spotify.Client.{
  Json, Client, CachedTrack, Result, ok, failed, seconds, track_metadata, bad_id,
}
use togewire.Spotify.Costs.{Costs, Costs-free, Costs-option, Costs-result, Costs-trans}
use togewire.Spotify.RequestLaws.{Costs-send_authed_json}
use togewire.Spotify.AccountLaws.{Costs-resolve_spclient_host}
use togewire.Spotify.Requests.{send_authed_json}
use togewire.Spotify.Account.{resolve_spclient_host}
use togewire.Spotify.Playback.{
  track_metadata_cache_max_entries, fresh_entry, looked_up, retry_at, cache_metadata,
  fetch_track_metadata_from_spclient, fetch_track_metadata, looked_up_anew,
}

length-insert :
    (k : Text) (v : CachedTrack) (m : List (Text × CachedTrack))
    → length (insert Text-discrete k v m) ≤ suc (length m)
unfolding insert
length-insert k v m = let le = length-remove-le Text-discrete k m in omega arith

-- At most one entry above the cap, and each address once.
pub record IsBounded (c : Client) : Type 0 where
  pub few : length c.track_metadata_cache ≤ track_metadata_cache_max_entries + 1
  pub map : IsMap Text-discrete c.track_metadata_cache

IsBounded-same :
    (c d : Client) → d.track_metadata_cache ≡ c.track_metadata_cache → IsBounded c → IsBounded d
IsBounded-same c d e h = record { few = rw e h.few; map = rw e h.map }

IsMap-empty : (k : Text) → count Text-discrete k [] ≤ 1
unfolding count
IsMap-empty q = omega arith

IsBounded-cache_metadata :
    (uri : Text) (entry : CachedTrack) (c : Client)
    → IsBounded c
    → IsBounded (cache_metadata uri entry c)
unfolding cache_metadata
IsBounded-cache_metadata uri entry c h =
    elim (Bool-cases (ltb track_metadata_cache_max_entries (length c.track_metadata_cache))) [
      | inl e ↦
          let one = length-insert uri entry [] in
          record {
            few = rw e (omega arith);
            map = rw e (IsMap-insert Text-discrete uri entry [] IsMap-empty);
          }
      | inr e ↦
          let more = length-insert uri entry c.track_metadata_cache in
          let room : length c.track_metadata_cache ≤ track_metadata_cache_max_entries =
            ground arith in
          record {
            few = rw e (omega arith);
            map = rw e (IsMap-insert Text-discrete uri entry c.track_metadata_cache h.map);
          }
    ]

module _ (j : Json) where
  -- A lookup costs at most five requests: one for the host and four for the record.
  Costs-lookup :
      (uri : Text) (c : Client) → Costs 5 c (fetch_track_metadata_from_spclient j uri c).0
  unfolding fetch_track_metadata_from_spclient
  Costs-lookup uri c =
      let h = resolve_spclient_host j c in
      let host = Costs-resolve_spclient_host j c in
      Costs-option 5 c (j.base16 (track_id_from_uri uri)) (c, failed bad_id) _ (Costs-free 5 c)
        (λ gid.
          let r = send_authed_json j (track_metadata h.1 gid) h.0 in
          let cost =
            Costs-trans 1 4 c h.0 r.0 host
              (Costs-send_authed_json j (track_metadata h.1 gid) h.0) in
          Costs-result 5 c r.1 _ _ (λ why. cost) (λ payload. cost))

  abbrev entry : Text → Client → Option (Option Track)
  entry uri c = fresh_entry c (get Text-discrete uri c.track_metadata_cache)

  fetch-cases :
      (uri : Text) (c : Client)
      → ((fetch_track_metadata j uri c ≡ (c, none)) × (is_empty uri ≡ true))
        ⊎ (((t : Option Track) × (is_empty uri ≡ false)
              × (entry uri c ≡ some t)
              × (fetch_track_metadata j uri c ≡ (c, t)))
            ⊎ ((is_empty uri ≡ false) × (fetch_track_metadata j uri c ≡ looked_up_anew j uri c)))
  unfolding fetch_track_metadata
  fetch-cases uri c = elim (Bool-cases (is_empty uri)) [
    | inl e ↦ inl (ground arith, e)
    | inr e ↦ elim (Option-cases (entry uri c)) [
      | inl n ↦ inr (inr (e, ground arith))
      | inr (t, n) ↦ inr (inl (t, e, n, ground arith))
    ]
  ]

  IsBounded-anew : (uri : Text) (c : Client) → IsBounded c → IsBounded (looked_up_anew j uri c).0
  unfolding looked_up_anew
  IsBounded-anew uri c h =
      let r = fetch_track_metadata_from_spclient j uri c in
      let cost = Costs-lookup uri c in
      IsBounded-cache_metadata uri _ r.0 (IsBounded-same c r.0 cost.kept h)

  -- The cached metadata stays within one entry above its cap, with one entry for each address.
  pub fetch_track_metadata-IsBounded :
      (uri : Text) (c : Client) → IsBounded c → IsBounded (fetch_track_metadata j uri c).0
  fetch_track_metadata-IsBounded uri c h = elim (fetch-cases uri c) [
    | inl (e, _) ↦ rw e h
    | inr (inl (t, _, _, e)) ↦ rw e h
    | inr (inr (_, e)) ↦ rw e (IsBounded-anew uri c h)
  ]

  get-cache_metadata :
      (uri : Text) (e : CachedTrack) (c : Client)
      → get Text-discrete uri (cache_metadata uri e c).track_metadata_cache ≡ some e
  unfolding cache_metadata
  get-cache_metadata uri e c = get-insert_self Text-discrete uri e _

  kept_clock :
      (uri : Text) (e : CachedTrack) (c : Client) → (cache_metadata uri e c).clock ≡ c.clock
  unfolding cache_metadata
  kept_clock uri e c = refl

  -- What a lookup leaves is an entry that serves at once.
  entry-cached :
      (uri : Text) (c : Client) (r : Result (Option Track))
      → entry uri (cache_metadata uri (looked_up r, retry_at c r) c) ≡ some (looked_up r)
  entry-cached uri c (ok t) = rw (get-cache_metadata uri (t, none) c) refl
  entry-cached uri c (failed why) =
      let at : Option ℕ = some (c.clock + seconds 60) in
      rw (get-cache_metadata uri (none, at) c, kept_clock uri (none, at) c) (ground arith)

  fetch-entry :
      (uri : Text) (c : Client) (t : Option Track)
      → is_empty uri ≡ false
      → entry uri c ≡ some t
      → fetch_track_metadata j uri c ≡ (c, t)
  unfolding fetch_track_metadata
  fetch-entry uri c t e n = ground arith

  fetch-anew :
      (uri : Text) (c : Client)
      → is_empty uri ≡ false
      → fetch_track_metadata j uri (looked_up_anew j uri c).0 ≡ looked_up_anew j uri c
  unfolding looked_up_anew
  fetch-anew uri c e =
      let r = fetch_track_metadata_from_spclient j uri c in
      fetch-entry uri (looked_up_anew j uri c).0 (looked_up r.1) e (entry-cached uri r.0 r.1)

  -- Asking for the same track's metadata again at once gives the same result from the cache, also after
  -- a failed lookup and when the cache has just been cleared: it sends nothing and changes nothing.
  pub fetch_track_metadata-again :
      (uri : Text) (c : Client)
      → fetch_track_metadata j uri (fetch_track_metadata j uri c).0 ≡ fetch_track_metadata j uri c
  fetch_track_metadata-again uri c = elim (fetch-cases uri c) [
    | inl (e, _) ↦ rw (e, e) refl
    | inr (inl (t, _, _, e)) ↦ rw (e, e) refl
    | inr (inr (n, e)) ↦ rw e (fetch-anew uri c n)
  ]
