-- ===== src/Base/Trim.antt =====
-- When trimming leaves nothing.
use mathlib.Core.Path.{◌≡◌, refl}
use mathlib.Core.Bool.{Bool, ◌&&◌}
use mathlib.Core.List.{List, [], ◌∷◌, ◌++◌, reverse, reverse-cons}
use native.Mathlib.Omega.{arith}
use Prim.Native.Nat.{ℕ}
use wiki_next.Base.Tests.{all}
use wiki_next.Base.Text.{is_empty, trim_start_matches, trim_matches}

all-append : (p : ℕ → Bool) (s t : List ℕ) → all p (s ++ t) ≡ (all p s && all p t)
all-append p [] t = refl
all-append p (c ∷ s) t = ground (arith, all-append p s t)

all-reverse : (p : ℕ → Bool) (s : List ℕ) → all p (reverse s) ≡ all p s
all-reverse p [] = refl
all-reverse p (c ∷ s) = rw (reverse-cons, all-append, all-reverse p s) (ground arith)

is_empty-append : (s t : List ℕ) → is_empty (s ++ t) ≡ (is_empty s && is_empty t)
is_empty-append [] t = refl
is_empty-append (c ∷ s) t = refl

is_empty-reverse : (s : List ℕ) → is_empty (reverse s) ≡ is_empty s
is_empty-reverse [] = refl
is_empty-reverse (c ∷ s) = rw (reverse-cons, is_empty-append) (ground arith)

all-trim_start_matches : (p : ℕ → Bool) (s : List ℕ) → all p (trim_start_matches p s) ≡ all p s
unfolding trim_start_matches
all-trim_start_matches p [] = refl
all-trim_start_matches p (c ∷ s) = ground (arith, all-trim_start_matches p s)

is_empty-trim_start_matches :
    (p : ℕ → Bool) (s : List ℕ) → is_empty (trim_start_matches p s) ≡ all p s
unfolding trim_start_matches
is_empty-trim_start_matches p [] = refl
is_empty-trim_start_matches p (c ∷ s) = ground (arith, is_empty-trim_start_matches p s)

-- Trimming leaves nothing exactly where every character is trimmed.
pub is_empty-trim_matches : (p : ℕ → Bool) (s : List ℕ) → is_empty (trim_matches p s) ≡ all p s
is_empty-trim_matches p s =
    unfold trim_matches in
    rw (is_empty-reverse, is_empty-trim_start_matches, all-reverse) (all-trim_start_matches p s)
