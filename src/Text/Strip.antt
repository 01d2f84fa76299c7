-- ===== src/Text/Strip.antt =====
-- `strip` and `split` on texts without blanks or separators.
use optolink.Base.{ℕ, ◌≡◌, refl, ap, ◌∙◌, true, false, [], ◌∷◌, ◌++◌, ◌==◌, All, arith}
use optolink.Text.{Text, is_blank, lstrip, rstrip, strip, split}

-- no code point is a blank
abbrev pub IsPlain : Text → Type 0
IsPlain = All (λ c. is_blank c ≡ false)

lstrip-plain : (s : Text) → IsPlain s → lstrip s ≡ s
unfolding lstrip
lstrip-plain [] h = refl
lstrip-plain (c ∷ s) h = rw (h.0) refl

rstrip-plain : (s : Text) → IsPlain s → rstrip s ≡ s
unfolding rstrip
rstrip-plain [] h = refl
rstrip-plain (c ∷ []) h = rw (h.0) refl
rstrip-plain (c ∷ d ∷ s) h = rw (rstrip-plain (d ∷ s) h.1) refl

pub strip-plain : (s : Text) → IsPlain s → strip s ≡ s
unfolding strip
strip-plain s h = ap rstrip (lstrip-plain s h) ∙ rstrip-plain s h

-- the separator does not occur
abbrev pub Lacks : ℕ → Text → Type 0
Lacks sep = All (λ c. (c == sep) ≡ false)

pub split-none : (sep : ℕ) (s : Text) → Lacks sep s → split sep s ≡ s ∷ []
unfolding split
split-none sep [] h = refl
split-none sep (c ∷ s) h = rw (h.0, split-none sep s h.1) refl

==-refl : (n : ℕ) → (n == n) ≡ true
==-refl n = ground arith

pub split-append : (sep : ℕ) (s t : Text) → Lacks sep s → split sep (s ++ sep ∷ t) ≡ s ∷ split sep t
unfolding split
split-append sep [] t h = rw (==-refl sep) refl
split-append sep (c ∷ s) t h = rw (h.0, split-append sep s t h.1) refl
