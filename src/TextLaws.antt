-- ===== src/TextLaws.antt =====
-- Texts whose characters all pass a test, and `str::trim` on a text that has nothing to trim.
use mathlib.Core.List.{reverse, ◌++◌, reverse-reverse, reverse-cons}
use togewire.Prelude.{all, ℕ, ◌≡◌, refl, ◌∙◌, Bool, true, not, ◌&&◌, [], ◌∷◌, Text, arith}
use togewire.Config.{trim, trim_start, trim_end, is_whitespace}

abbrev pub visible : ℕ → Bool
visible c = not (is_whitespace c)

pub all-append : (p : ℕ → Bool) (s t : Text) → all p (s ++ t) ≡ (all p s && all p t)
unfolding all
all-append p [] t = refl
all-append p (c ∷ s) t = let ih = all-append p s t in ground arith

pub all-reverse : (p : ℕ → Bool) (s : Text) → all p (reverse s) ≡ all p s
unfolding all
all-reverse p [] = refl
all-reverse p (c ∷ s) =
    let ih = all-reverse p s in
    rw (reverse-cons c s, all-append p (reverse s) (c ∷ [])) (ground arith)

trim_start_id : (s : Text) → all visible s ≡ true → trim_start is_whitespace s ≡ s
unfolding trim_start all
trim_start_id [] h = refl
trim_start_id (c ∷ s) h = ground arith

pub trim_id : (s : Text) → all visible s ≡ true → trim s ≡ s
unfolding trim trim_end
trim_id s h =
    rw (trim_start_id s h, trim_start_id (reverse s) (all-reverse visible s ∙ h))
      (reverse-reverse s)
