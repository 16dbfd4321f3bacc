-- ===== src/Types.antt =====
-- src/types.rs: tracks and the playback state.
use togewire.Prelude.{
  ℕ, zero, suc, ◌-◌, ◌∷◌, ltb, ◌==◌, Bool, not, ◌&&◌, ◌||◌, Option, none, some, [], Text, ◌=?◌,
  if◌then◌else◌, codes,
}
use togewire.Prelude.Int.{ℤ}
use togewire.Server.Auth.{len_utf8}

pub record Track : Type 0 where
  pub id : Text
  pub name : Text
  pub artist : Text
  pub album : Text
  pub album_artist : Option Text
  pub duration : ℤ
  pub explicit : Bool
  pub cover_url : Option Text
  pub release_date : Option Text
  pub track_number : Option ℤ
  pub disc_number : Option ℤ

pub record SpotifyState : Type 0 where
  pub track : Option Track
  pub next_track : Option Track
  pub progress : ℤ
  pub is_playing : Bool

abbrev pub or {ℓ} : {A : Type ℓ} → Option A → Option A → Option A
or (some a) b = some a
or none b = b

abbrev pub is_empty : Text → Bool
is_empty s = s =? []

abbrev pub unknown_artist : Text
unknown_artist = codes "Unknown Artist"

-- Fill whatever `t` lacks from `other`, a weaker source for the same track.
unfoldable pub fill_from : Track → Track → Track
fill_from t other = record t {
  name =
      if (is_empty t.name || t.name =? t.id) && not (is_empty other.name)
      then other.name
      else t.name;
  artist =
      if (is_empty t.artist || t.artist =? unknown_artist)
        && not (is_empty other.artist)
        && not (other.artist =? unknown_artist)
      then other.artist
      else t.artist;
  album = if is_empty t.album then other.album else t.album;
  album_artist = or t.album_artist other.album_artist;
  explicit = t.explicit || other.explicit;
  cover_url = or t.cover_url other.cover_url;
  release_date = or t.release_date other.release_date;
  track_number = or t.track_number other.track_number;
  disc_number = or t.disc_number other.disc_number;
}

-- `str::get(..n)`: the first `n` bytes, if they are whole characters. A character takes at least one
-- byte, so that fuel of `n + 1` is enough.
unfoldable pub leading_bytes : ℕ → ℕ → Text → Option Text
unfolding len_utf8
leading_bytes zero n s = some []
leading_bytes (suc fuel) n [] = if n == 0 then some [] else none
leading_bytes (suc fuel) n (c ∷ s) =
    let rest = leading_bytes fuel (n - len_utf8 c) s in
    if n == 0
    then some []
    else if ltb n (len_utf8 c)
    then none
    else (elim rest [ none ↦ none | some t ↦ some (c ∷ t) ])

-- Year part of `release_date`, what cached files are tagged with.
unfoldable pub release_year : Track → Option Text
unfolding leading_bytes
release_year t = elim t.release_date [ none ↦ none | some d ↦ leading_bytes 5 4 d ]
