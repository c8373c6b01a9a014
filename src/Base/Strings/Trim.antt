-- ===== src/Base/Strings/Trim.antt =====
-- Texts that strings.TrimSpace leaves alone.
use Prim.Native.Nat.{ℕ, zero, suc, ◌<◌}
use mathlib.Core.Path.{◌≡◌, refl, sym, ap, ◌∙◌}
use mathlib.Core.Logic.{◌≢◌}
use mathlib.Core.List.{List, [], ◌∷◌, map, reverse, reverse-reverse}
use mathlib.Core.Option.{none}
use native.Mathlib.Omega.{arith}
use worker_thoth.Base.Lists.{length}
use worker_thoth.Base.Bytes.{Text}
use worker_thoth.Base.Strings.{spaces, strip_prefix, strip_any, strip_all, trim_space}

-- A printable ASCII character other than the space.
abbrev pub IsVisible : ℕ → Type 0
IsVisible c = (0x20 < c) × (c < 0x7f)

-- No text of the list begins with `c`.
abbrev NoneBegins : ℕ → List Text → Type 0
NoneBegins c [] = Unit
NoneBegins c ([] ∷ ps) = ⊥
NoneBegins c ((x ∷ p) ∷ ps) = (x ≢ c) × NoneBegins c ps

strip_any-NoneBegins :
    (c : ℕ) (s : Text) (ps : List Text) → NoneBegins c ps → strip_any ps (c ∷ s) ≡ none
unfolding strip_any strip_prefix
strip_any-NoneBegins c s [] h = refl
strip_any-NoneBegins c s ([] ∷ ps) h = absurd h
strip_any-NoneBegins c s ((x ∷ p) ∷ ps) h = ground (arith, strip_any-NoneBegins c s ps h.1)

strip_all-NoneBegins :
    (ps : List Text) (n c : ℕ) (s : Text) → NoneBegins c ps → strip_all ps n (c ∷ s) ≡ c ∷ s
unfolding strip_all
strip_all-NoneBegins ps zero c s h = refl
strip_all-NoneBegins ps (suc n) c s h = rw (strip_any-NoneBegins c s ps h, strip_all)

spaces-NoneBegins : (c : ℕ) → IsVisible c → NoneBegins c spaces
spaces-NoneBegins c v = omega arith

spaces_back-NoneBegins : (c : ℕ) → IsVisible c → NoneBegins c (map reverse spaces)
spaces_back-NoneBegins c v = omega arith

-- A text that begins and ends with visible characters is trimmed already.
pub trim_space-visible :
    (c d : ℕ) (s r : Text)
    → IsVisible c
    → IsVisible d
    → reverse (c ∷ s) ≡ d ∷ r
    → trim_space (c ∷ s) ≡ c ∷ s
unfolding trim_space
trim_space-visible c d s r vc vd e =
    let front = strip_all-NoneBegins spaces (length (c ∷ s)) c s (spaces-NoneBegins c vc) in
    let back =
      strip_all-NoneBegins (map reverse spaces) (length (c ∷ s)) d r
        (spaces_back-NoneBegins d vd) in
    ap (λ t. reverse (strip_all (map reverse spaces) (length (c ∷ s)) (reverse t))) front
    ∙ ap (λ t. reverse (strip_all (map reverse spaces) (length (c ∷ s)) t)) e
    ∙ ap reverse back
    ∙ ap reverse (sym e)
    ∙ reverse-reverse (c ∷ s)
