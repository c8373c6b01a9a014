-- ===== src/Download/Names.antt =====
-- The file name that is sent along with a download.
use mathlib.Core.List.{reverse, reverse_aux}
use worker_thoth.Base.{
  ◌≡◌, ◌≢◌, ◌⊎◌, ◌||◌, false, [], ◌∷◌, arith, Option, none, some, Text, codes, All, text_eq,
  text_eq_iff, is_empty, Bool-cases, inl, inr,
}
use worker_thoth.Download.{drop_slashes, up_to_slash, path_base, filename_of_path}

abbrev NoSlash : Text → Type 0
NoSlash = All (λ c. c ≢ b'/')

All-reverse_aux : (s acc : Text) → NoSlash s → NoSlash acc → NoSlash (reverse_aux s acc)
All-reverse_aux [] acc h k = k
All-reverse_aux (c ∷ s) acc h k = All-reverse_aux s (c ∷ acc) h.1 (h.0, k)

up_to_slash-NoSlash : (s : Text) → NoSlash (up_to_slash s)
up_to_slash-NoSlash [] = tt
up_to_slash-NoSlash (c ∷ s) = ground (arith, up_to_slash-NoSlash s)

reverse-NoSlash : (s : Text) → NoSlash s → NoSlash (reverse s)
reverse-NoSlash s h = All-reverse_aux s [] h tt

path_base-cases : (path : Text) → (path_base path ≡ codes "/") ⊎ NoSlash (path_base path)
unfolding path_base
path_base-cases path = ground (
  arith,
  reverse-NoSlash (up_to_slash (drop_slashes (reverse path)))
      (up_to_slash-NoSlash (drop_slashes (reverse path))),
)

abbrev IsPlain : Text → Type 0
IsPlain name = (name ≢ []) × (name ≢ codes ".") × All (λ c. c ≢ b'/') name

audio-IsPlain : IsPlain (codes "audio")
audio-IsPlain = (λ e. cc, λ e. cc, omega arith)

kept-IsPlain :
    (base : Text)
    → (base ≡ codes "/") ⊎ NoSlash base
    → (is_empty base || text_eq base (codes ".") || text_eq base (codes "/")) ≡ false
    → IsPlain base
kept-IsPlain [] cases kept = absurd (cc)
kept-IsPlain (c ∷ s) cases kept =
    let no_dot = text_eq_iff (c ∷ s) (codes ".") in
    let no_root = text_eq_iff (c ∷ s) (codes "/") in
    (λ e. cc, λ e. ground (arith, no_dot.1 e), ground (arith, no_root))

-- The file name of a download is not empty, is not "." and has no slash.
pub filename-plain :
    (path : Option Text)
    → let name = filename_of_path path in
      (name ≢ []) × (name ≢ codes ".") × All (λ c. c ≢ b'/') name
unfolding filename_of_path
filename-plain none = audio-IsPlain
filename-plain (some path) = elim (Bool-cases (is_empty path)) [
  | inl empty ↦ rw empty audio-IsPlain
  | inr path_given ↦
      let base = path_base path in
      elim (Bool-cases (is_empty base || text_eq base (codes ".") || text_eq base (codes "/"))) [
        | inl odd ↦ rw (path_given, odd) audio-IsPlain
        | inr kept ↦ rw (path_given, kept) (kept-IsPlain base (path_base-cases path) kept)
      ]
]
