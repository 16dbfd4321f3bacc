-- ===== src/Cache/NamingLaws.antt =====
-- src/cache.rs: a file name is safe, whatever the artist and the title are.
use mathlib.Core.List.{reverse-reverse, reverse-append}
use togewire.Prelude.{
  ℕ, ◌+◌, ◌≤◌, ◌≡◌, ◌≢◌, refl, ◌∙◌, sym, ap, Bool, true, false, not, ◌&&◌, ◌||◌, [], ◌∷◌, ◌++◌,
  Text, if◌then◌else◌, ◌==◌, codes, reverse, all, Text-discrete, arith, subst,
}
use togewire.Config.{is_whitespace, trim, trim_start, trim_end}
use togewire.Types.{Track}
use togewire.TextLaws.{all-append}
use togewire.Server.Auth.{len_utf8, byte_len}
use togewire.Cache.Naming.{
  is_control, spaced, clean, cut, dot_or_space, trim_dots, or_track, file_stem,
}

-- No control character, no white space but the plain one, no separator of paths.
abbrev pub is_safe : ℕ → Bool
is_safe c =
    not (is_control c) && (c == 32 || not (is_whitespace c)) && not (c == b'/') && not (c == b'\\')

-- The text does not start with a character of `p`.
abbrev pub no_start : (ℕ → Bool) → Text → Bool
no_start p [] = true
no_start p (c ∷ s) = not (p c)

and_left : (a b : Bool) → (a && b) ≡ true → a ≡ true
and_left true b h = refl
and_left false b h = cc

start_of : (s t : Text) → no_start dot_or_space (s ++ t) ≡ true → no_start dot_or_space s ≡ true
start_of [] t h = refl
start_of (c ∷ s) t h = h

safe_spaced : (c : ℕ) → is_safe (spaced c) ≡ true
unfolding spaced is_control is_whitespace
safe_spaced c = ground arith

safe_space : is_safe 32 ≡ true
unfolding is_control is_whitespace
safe_space = refl

all-clean : (gap : Bool) (s : Text) → all is_safe (clean gap s) ≡ true
unfolding clean all
all-clean gap [] = refl
all-clean gap (c ∷ s) =
    let safe = safe_spaced c in
    let after_space = all-clean true s in
    let after_char = all-clean false s in let space = safe_space in ground arith

all-cut : (used : ℕ) (s : Text) → all is_safe s ≡ true → all is_safe (cut used s) ≡ true
unfolding cut all
all-cut used [] h = refl
all-cut used (c ∷ s) h = let ih = all-cut (used + len_utf8 c) s in ground arith

byte_len-cut : (used : ℕ) (s : Text) → used ≤ 180 → used + byte_len (cut used s) ≤ 180
unfolding cut byte_len
byte_len-cut used [] h = ground arith
byte_len-cut used (c ∷ s) h = let ih = byte_len-cut (used + len_utf8 c) s in ground arith

-- What a trimming drops stands in front, or at the end.
trim_start-append : (p : ℕ → Bool) (s : Text) → (front : Text) × (s ≡ front ++ trim_start p s)
unfolding trim_start
trim_start-append p [] = ([], refl)
trim_start-append p (c ∷ s) =
    let (front, e) = trim_start-append p s in
    elim (p c) as (λ b. (front : Text) × (c ∷ s ≡ front ++ (if b then trim_start p s else c ∷ s))) [
      | true ↦ (c ∷ front, cc)
      | false ↦ ([], refl)
    ]

trim_end-append : (p : ℕ → Bool) (s : Text) → (back : Text) × (s ≡ trim_end p s ++ back)
unfolding trim_end
trim_end-append p s =
    let (front, e) = trim_start-append p (reverse s) in
    (
      reverse front,
      sym (reverse-reverse s) ∙ ap reverse e ∙ reverse-append front (trim_start p (reverse s)),
    )

byte_len-append : (s t : Text) → byte_len (s ++ t) ≡ byte_len s + byte_len t
unfolding byte_len
byte_len-append [] t = omega arith
byte_len-append (c ∷ s) t = let ih = byte_len-append s t in omega arith

-- What a front part of a text keeps of it.
record IsPart (s t : Text) : Type 0 where
  chars : all is_safe t ≡ true → all is_safe s ≡ true
  bytes : byte_len s ≤ byte_len t
  start : no_start dot_or_space t ≡ true → no_start dot_or_space s ≡ true

IsPart-front : (s t : Text) → IsPart s (s ++ t)
IsPart-front s t = record {
  chars = λ h. and_left (all is_safe s) (all is_safe t) (sym (all-append is_safe s t) ∙ h);
  bytes = let sum = byte_len-append s t in omega arith;
  start = λ h. start_of s t h;
}

IsPart-trim_end : (p : ℕ → Bool) (s : Text) → IsPart (trim_end p s) s
IsPart-trim_end p s =
    let (back, e) = trim_end-append p s in
    subst (IsPart (trim_end p s)) (sym e) (IsPart-front (trim_end p s) back)

all-trim_start :
    (p : ℕ → Bool) (s : Text) → all is_safe s ≡ true → all is_safe (trim_start p s) ≡ true
unfolding trim_start all
all-trim_start p [] h = refl
all-trim_start p (c ∷ s) h = let ih = all-trim_start p s in ground arith

start-trim_start : (p : ℕ → Bool) (s : Text) → no_start p (trim_start p s) ≡ true
unfolding trim_start
start-trim_start p [] = refl
start-trim_start p (c ∷ s) = let ih = start-trim_start p s in ground arith

start-cut :
    (used : ℕ) (s : Text)
    → no_start dot_or_space s ≡ true
    → no_start dot_or_space (cut used s) ≡ true
unfolding cut
start-cut used [] h = refl
start-cut used (c ∷ s) h = ground arith

-- A safe text that does not start with a space has nothing to trim in front.
trim_start_safe :
    (s : Text)
    → all is_safe s ≡ true
    → no_start dot_or_space s ≡ true
    → trim_start is_whitespace s ≡ s
unfolding trim_start all
trim_start_safe [] h k = refl
trim_start_safe (c ∷ s) h k = ground arith

IsPart-trim : (s : Text) → all is_safe s ≡ true → no_start dot_or_space s ≡ true → IsPart (trim s) s
unfolding trim
IsPart-trim s h k = rw (trim_start_safe s h k) (IsPart-trim_end is_whitespace s)

-- What every name of a file has.
pub record IsFileName (s : Text) : Type 0 where
  pub chars : all is_safe s ≡ true
  pub bytes : byte_len s ≤ 180
  pub start : no_start dot_or_space s ≡ true
  pub some_char : s ≢ []

IsFileName-or_track :
    (s : Text)
    → all is_safe s ≡ true
    → byte_len s ≤ 180
    → no_start dot_or_space s ≡ true
    → IsFileName (or_track s)
unfolding all byte_len len_utf8 is_control is_whitespace Text-discrete
IsFileName-or_track [] h b k = record {
  chars = refl;
  bytes = omega arith;
  start = refl;
  some_char = λ e. cc;
}
IsFileName-or_track (c ∷ s) h b k = record { chars = h; bytes = b; start = k; some_char = λ e. cc }

-- Whatever artist and title a track has, the name of its file holds no control character, no separator
-- of paths and no white space but the plain one, takes at most 180 bytes in UTF-8, does not start
-- with a dot or a space, and is not empty.
pub file_stem-IsFileName : (t : Track) → IsFileName (file_stem t)
unfolding file_stem trim_dots
file_stem-IsFileName t =
    let raw = clean true (t.artist ++ codes " - " ++ t.name) in
    let front = trim_start dot_or_space raw in
    let dots = IsPart-trim_end dot_or_space front in
    let middle = trim_end dot_or_space front in
    let safe =
      dots.chars
        (all-trim_start dot_or_space raw (all-clean true (t.artist ++ codes " - " ++ t.name))) in
    let begun = dots.start (start-trim_start dot_or_space raw) in
    let short = cut 0 middle in
    let safe_short = all-cut 0 middle safe in
    let begun_short = start-cut 0 middle begun in
    let bound = byte_len-cut 0 middle (omega arith) in
    let last = IsPart-trim short safe_short begun_short in
    let less = last.bytes in
    IsFileName-or_track (trim short) (last.chars safe_short) (omega arith) (last.start begun_short)
