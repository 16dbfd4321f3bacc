-- ===== src/Spotify/UriLaws.antt =====
-- src/spotify/parsing.rs: every spelling of a track's address names the same track.
use mathlib.Core.List.{◌++◌}
use togewire.Prelude.{
  all, ℕ, ◌≤◌, ◌≡◌, refl, ◌∙◌, Bool, true, false, none, some, List, [], ◌∷◌, Text, arith, length,
  drop, codes,
}
use togewire.Config.{trim, is_whitespace}
use togewire.Cache.Disk.{starts_with}
use togewire.Server.Auth.{byte_len, len_utf8}
use togewire.Server.Addresses.{strip_prefix, split, split_first}
use togewire.Spotify.Uris.{
  is_alphanumeric, is_probable_spotify_id, first_part, after, track_prefix, is_id_end, prefixed_id,
  url_id, bare_id, normalize_track_uri, track_id_from_uri,
}
use togewire.TextLaws.{visible, trim_id, all-append}

pub visible_alphanumeric : (c : ℕ) → is_alphanumeric c ≡ true → visible c ≡ true
unfolding is_alphanumeric is_whitespace
visible_alphanumeric c h = ground arith

pub all-visible : (s : Text) → all is_alphanumeric s ≡ true → all visible s ≡ true
unfolding all
all-visible [] h = refl
all-visible (c ∷ s) h = let ih = all-visible s in let first = visible_alphanumeric c in ground arith

-- An identifier: at least 16 ASCII letters and digits.
pub record IsId (id : Text) : Type 0 where
  pub long : 16 ≤ length id
  pub plain : all is_alphanumeric id ≡ true

byte_len-plain : (s : Text) → all is_alphanumeric s ≡ true → byte_len s ≡ length s
unfolding byte_len all is_alphanumeric len_utf8
byte_len-plain [] h = refl
byte_len-plain (c ∷ s) h = let ih = byte_len-plain s in ground arith

probable : (id : Text) → IsId id → is_probable_spotify_id id ≡ true
unfolding is_probable_spotify_id
probable id h =
    let long = h.long in
    rw (trim_id id (all-visible id h.plain), byte_len-plain id h.plain, h.plain) (ground arith)

starts_with-append : (p s : Text) → starts_with p (p ++ s) ≡ true
unfolding starts_with
starts_with-append [] s = refl
starts_with-append (c ∷ p) s = let ih = starts_with-append p s in ground arith

drop-append : (p s : Text) → drop (length p) (p ++ s) ≡ s
drop-append [] s = refl
drop-append (c ∷ p) s = drop-append p s

strip_prefix-append : (p s : Text) → strip_prefix p (p ++ s) ≡ some s
unfolding strip_prefix
strip_prefix-append p s = rw (starts_with-append p s, drop-append p s) refl

starts_with-all :
    (q : ℕ → Bool) (p s : Text) → all q s ≡ true → all q p ≡ false → starts_with p s ≡ false
unfolding starts_with all
starts_with-all q [] s h k = cc
starts_with-all q (c ∷ p) [] h k = refl
starts_with-all q (c ∷ p) (d ∷ s) h k = let ih = starts_with-all q p s in ground arith

strip_prefix-plain :
    (p s : Text)
    → all is_alphanumeric s ≡ true
    → all is_alphanumeric p ≡ false
    → strip_prefix p s ≡ none
unfolding strip_prefix
strip_prefix-plain p s h k = rw (starts_with-all is_alphanumeric p s h k) refl

after-plain :
    (p s : Text) → all is_alphanumeric s ≡ true → all is_alphanumeric p ≡ false → after p s ≡ none
unfolding after all
after-plain p [] h k = strip_prefix-plain p [] h k
after-plain p (c ∷ s) h k =
    let rest : all is_alphanumeric s ≡ true = ground arith in
    rw (strip_prefix-plain p (c ∷ s) h k, after-plain p s rest k) refl

-- What may follow an identifier in a link: nothing, or a text from one of `?/&#` on.
abbrev pub is_tail : Text → Bool
is_tail [] = true
is_tail (c ∷ s) = is_id_end c

not_id_end : (c : ℕ) → is_alphanumeric c ≡ true → is_id_end c ≡ false
unfolding is_alphanumeric
not_id_end c h = ground arith

first_part-split :
    (id tail : Text)
    → all is_alphanumeric id ≡ true
    → is_tail tail ≡ true
    → first_part (split is_id_end (id ++ tail)) ≡ some id
unfolding split split_first all
first_part-split [] [] h t = refl
first_part-split [] (c ∷ s) h t = rw t refl
first_part-split (c ∷ id) tail h t =
    let here : is_alphanumeric c ≡ true = ground arith in
    let rest : all is_alphanumeric id ≡ true = ground arith in
    rw (not_id_end c here) (consed (split is_id_end (id ++ tail)) (first_part-split id tail rest t))
  where
    consed :
        (ss : List Text) → first_part ss ≡ some id → first_part (split_first c ss) ≡ some (c ∷ id)
    consed [] e = cc
    consed (s ∷ ss) e = let same : s ≡ id = cc in rw same refl

trim-append :
    (prefix s : Text)
    → all visible prefix ≡ true
    → all visible s ≡ true
    → trim (prefix ++ s) ≡ prefix ++ s
trim-append prefix s h k = trim_id (prefix ++ s) (all-append visible prefix s ∙ rw (h, k) refl)

id_of_normal :
    (raw id : Text)
    → normalize_track_uri raw ≡ some (track_prefix ++ id)
    → track_id_from_uri raw ≡ id
unfolding track_id_from_uri
id_of_normal raw id h = rw (h, strip_prefix-append track_prefix id) refl

module _ (id : Text) (h : IsId id) where
  seen : all visible id ≡ true
  seen = all-visible id h.plain

  of_uri : track_id_from_uri (track_prefix ++ id) ≡ id
  unfolding normalize_track_uri prefixed_id all is_whitespace
  of_uri = id_of_normal (track_prefix ++ id) id (
      rw (trim-append track_prefix id refl seen, strip_prefix-append track_prefix id, probable id h)
        refl)

  of_short_uri : track_id_from_uri (codes "track:" ++ id) ≡ id
  unfolding normalize_track_uri prefixed_id all is_whitespace strip_prefix starts_with
  of_short_uri = id_of_normal (codes "track:" ++ id) id (
      rw
        (
          trim-append (codes "track:") id refl seen,
          strip_prefix-append (codes "track:") id,
          probable id h,
        )
        refl)

  of_bare_id : track_id_from_uri id ≡ id
  unfolding normalize_track_uri prefixed_id url_id bare_id all is_alphanumeric
  of_bare_id = id_of_normal id id (
      rw
        (
          trim_id id seen,
          strip_prefix-plain track_prefix id h.plain refl,
          strip_prefix-plain (codes "track:") id h.plain refl,
          after-plain (codes "/track/") id h.plain refl,
          probable id h,
        )
        refl)

  module _ (tail : Text) (t : is_tail tail ≡ true) (v : all visible tail ≡ true) where
    of_link : track_id_from_uri (codes "https://open.spotify.com/track/" ++ (id ++ tail)) ≡ id
    unfolding normalize_track_uri prefixed_id url_id all is_whitespace strip_prefix starts_with
        after
    of_link = id_of_normal (codes "https://open.spotify.com/track/" ++ (id ++ tail)) id (
        rw
          (
            trim-append (codes "https://open.spotify.com/track/") (id ++ tail) refl
                (all-append visible id tail ∙ rw (seen, v) refl),
            first_part-split id tail h.plain t,
            probable id h,
          )
          refl)

-- Every spelling of a track's address gives the same identifier: for one of at least 16 ASCII letters
-- and digits, its URI, the URI without "spotify:", the bare identifier and the link, whatever query,
-- fragment or further path without whitespace the link goes on with.
pub track_id_from_uri-spellings :
    (id tail : Text)
    → IsId id
    → is_tail tail ≡ true
    → all visible tail ≡ true
    → (track_id_from_uri (track_prefix ++ id) ≡ id)
      × (track_id_from_uri (codes "track:" ++ id) ≡ id)
      × (track_id_from_uri id ≡ id)
      × (track_id_from_uri (codes "https://open.spotify.com/track/" ++ (id ++ tail)) ≡ id)
track_id_from_uri-spellings id tail h t v =
    (of_uri id h, of_short_uri id h, of_bare_id id h, of_link id h tail t v)
