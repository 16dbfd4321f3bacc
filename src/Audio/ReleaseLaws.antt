-- ===== src/Audio/ReleaseLaws.antt =====
-- src/audio/ytdlp.rs: what a downloaded tool has been checked against.
use togewire.Prelude.{
  ◌≡◌, refl, ◌∙◌, sym, ap, subst, inl, inr, Bool, true, false, ◌&&◌, Option, none, some, List, [],
  ◌∷◌, Text, Text-discrete, ◌=?◌, if◌then◌else◌, map, Option-cases, Bool-cases,
}
use togewire.Server.Addresses.{to_ascii_lowercase}
use togewire.Server.Auth.{hex}
use togewire.Spotify.Json.{find_map}
use togewire.Stream.Pipe.{Bytes}
use togewire.Audio.Releases.{
  split_whitespace, lines, is_hash, names_file, parts_hash, line_hash, parse_sha256sums, fetched,
  request_failed, checksum_missing, checksum_mismatch, checked, download_verified,
}

-- A line that has the hash, in small letters, before nothing or before the file's name.
pub record Publishes (filename digest line : Text) : Type 0 where
  pub hash : Text
  pub rest : List Text
  pub parts : split_whitespace line ≡ hash ∷ rest
  pub is_sha256 : is_hash hash ≡ true
  pub named : names_file filename rest ≡ true
  pub lowered : map to_ascii_lowercase hash ≡ digest

pub data Listed (filename digest : Text) : List Text → Type 0 where
  here :
      {line : Text} {ls : List Text}
      → Publishes filename digest line
      → Listed filename digest (line ∷ ls)
  there :
      {line : Text} {ls : List Text}
      → Listed filename digest ls
      → Listed filename digest (line ∷ ls)

if-some : (b : Bool) (x y : Text) → (if b then some x else none) ≡ some y → (b ≡ true) × (x ≡ y)
if-some true x y h = (refl, cc)
if-some false x y h = absurd (cc)

and_parts : (a b : Bool) → (a && b) ≡ true → (a ≡ true) × (b ≡ true)
and_parts true true h = (refl, refl)
and_parts true false h = absurd (cc)
and_parts false b h = absurd (cc)

parts_hash-Publishes :
    (filename digest line : Text) (ps : List Text)
    → split_whitespace line ≡ ps
    → parts_hash filename ps ≡ some digest
    → Publishes filename digest line
unfolding parts_hash
parts_hash-Publishes filename digest line [] e h = absurd (cc)
parts_hash-Publishes filename digest line (hash ∷ rest) e h =
    let (good, same) =
      if-some (is_hash hash && names_file filename rest) (map to_ascii_lowercase hash) digest h in
    let (sha, name) = and_parts (is_hash hash) (names_file filename rest) good in
    record { hash = hash; rest = rest; parts = e; is_sha256 = sha; named = name; lowered = same }

line_hash-Publishes :
    (filename digest line : Text)
    → line_hash filename line ≡ some digest
    → Publishes filename digest line
unfolding line_hash
line_hash-Publishes filename digest line h =
    parts_hash-Publishes filename digest line (split_whitespace line) refl h

find_map-Listed :
    (filename digest : Text) (ls : List Text)
    → find_map (line_hash filename) ls ≡ some digest
    → Listed filename digest ls
unfolding find_map
find_map-Listed filename digest [] h = absurd (cc)
find_map-Listed filename digest (line ∷ ls) h = elim (Option-cases (line_hash filename line)) [
  | inl n ↦ there (find_map-Listed filename digest ls (sym (rw n refl) ∙ h))
  | inr (x, n) ↦
      let first : some x ≡ some digest = sym (rw n refl) ∙ h in
      here (line_hash-Publishes filename digest line (n ∙ first))
]

=?-eq : (s t : Text) → (s =? t) ≡ true → s ≡ t
=?-eq s t h =
    elim (Text-discrete s t) as (λ d. (elim d [ yes _ ↦ true | no _ ↦ false ]) ≡ true → s ≡ t) [
      | yes p ↦ λ x. p
      | no n ↦ λ x. absurd (cc)
    ]
      h

checked-fetched :
    (sha256 : Bytes → Bytes) (expected : Text) (asset bytes : Bytes)
    → checked sha256 expected asset ≡ fetched bytes
    → (asset ≡ bytes) × (hex (sha256 bytes) ≡ expected)
checked-fetched sha256 expected asset bytes h = elim (Bool-cases (hex (sha256 asset) =? expected)) [
  | inl e ↦
      let sent : fetched asset ≡ fetched bytes = sym (rw e refl) ∙ h in
      let same : asset ≡ bytes = cc in
      (same, subst (λ x. hex (sha256 x) ≡ expected) same (=?-eq (hex (sha256 asset)) expected e))
  | inr e ↦ let bad : checksum_mismatch ≡ fetched bytes = sym (rw e refl) ∙ h in absurd (cc)
]

-- A download gives bytes only if both addresses answered, the bytes are what the second one sent, and a
-- line of the first one's text that names the file, or names none, has their SHA-256 as 64 digits.
pub download_verified-Listed :
    (sha256 : Bytes → Bytes) (made : Bool) (sums : Option Text) (asset : Option Bytes) (name : Text)
    (bytes : Bytes)
    → download_verified sha256 made sums asset name ≡ fetched bytes
    → (asset ≡ some bytes)
      × ((text : Text) × (sums ≡ some text) × Listed name (hex (sha256 bytes)) (lines text))
unfolding download_verified parse_sha256sums
download_verified-Listed sha256 false sums asset name bytes h = absurd (cc)
download_verified-Listed sha256 true none asset name bytes h = absurd (cc)
download_verified-Listed sha256 true (some text) asset name bytes h =
    elim (Option-cases (parse_sha256sums text name)) [
      | inl n ↦
          let bad : checksum_missing ≡ fetched bytes = sym (rw (download_verified, n) refl) ∙ h in
          absurd (cc)
      | inr (expected, n) ↦ sent_case expected n asset (sym (rw (download_verified, n) refl) ∙ h)
    ]
  where
    sent_case :
        (expected : Text)
        → parse_sha256sums text name ≡ some expected
        → (a : Option Bytes)
        → (elim a [ none ↦ request_failed | some bs ↦ checked sha256 expected bs ]) ≡ fetched bytes
        → (a ≡ some bytes)
          × ((t : Text) × (some text ≡ some t) × Listed name (hex (sha256 bytes)) (lines t))
    sent_case expected n none e = absurd (cc)
    sent_case expected n (some bs) e =
        let (same, digest) = checked-fetched sha256 expected bs bytes e in
        let listed =
          find_map-Listed name (hex (sha256 bytes)) (lines text) (n ∙ ap some (sym digest)) in
        (ap some same, (text, refl, listed))
