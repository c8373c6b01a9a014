-- ===== src/Server/Left.antt =====
-- internal/server: what handleUpload leaves in memory, not overwritten, when it breaks off the read
-- of a file.
use mathlib.Core.List.{append-nil, append_assoc}
use worker_thoth.Base.{
  ℕ, ◌≡◌, refl, ap, ◌∙◌, sym, ◌⊎◌, inl, inr, Bool-cases, Option, none, some, List, [], ◌∷◌, ◌++◌,
  Text, pos, ltb_ℤ, ok, ok-injective, Result-cases, ltb, length,
}
use worker_thoth.Server.{
  Reads, more, end_of_file, broken, UploadForm, AudioFile, form_limit, append_read, read_left,
  file_left, left_behind,
}

-- All bytes that the calls of Read would return.
abbrev pub all_bytes : Reads → Text
all_bytes (more bytes rest) = bytes ++ all_bytes rest
all_bytes (end_of_file bytes) = bytes
all_bytes (broken bytes) = bytes

append_read-eq-append :
    (max_bytes : ℕ) (front bytes : Text) {grown : Text}
    → append_read max_bytes front bytes ≡ ok grown
    → grown ≡ front ++ bytes
append_read-eq-append max_bytes front [] h = sym (ok-injective h) ∙ sym (append-nil front)
append_read-eq-append max_bytes front (b ∷ bytes) h =
    elim (Bool-cases (ltb max_bytes (length (front ++ b ∷ bytes)))) [
      | inl over ↦ absurd (cc (rw over at h))
      | inr within ↦ sym (ok-injective (rw within at h))
    ]

-- Nothing is left, or a copy of the first bytes of the file behind what was read before.
abbrev IsFront : Text → Text → List Text → Type 0
IsFront front whole left =
    (left ≡ [])
    ⊎ ((tail : Text) × (read : Text) × (left ≡ read ∷ []) × (front ++ whole ≡ read ++ tail))

grown-IsFront :
    (front bytes grown rest : Text) (left : List Text)
    → grown ≡ front ++ bytes
    → IsFront grown rest left
    → IsFront front (bytes ++ rest) left
grown-IsFront front bytes grown rest left same (inl none_left) = inl none_left
grown-IsFront front bytes grown rest left same (inr (tail, read, e, split)) =
    inr
      (tail, read, e, sym (append_assoc front bytes rest) ∙ ap (λ g. g ++ rest) (sym same) ∙ split)

read_left-IsFront :
    (max_bytes : ℕ) (front : Text) (reads : Reads)
    → IsFront front (all_bytes reads) (read_left max_bytes front reads)
unfolding read_left
read_left-IsFront max_bytes front (more bytes rest) =
    elim (Result-cases (append_read max_bytes front bytes)) [
      | inl (grown, step) ↦
          rw (step, read_left)
            (grown-IsFront front bytes grown (all_bytes rest) (read_left max_bytes grown rest)
              (append_read-eq-append max_bytes front bytes step)
              (read_left-IsFront max_bytes grown rest))
      | inr (r, step) ↦
          rw (step, read_left)
            (inr (all_bytes rest, front ++ bytes, refl, sym (append_assoc front bytes _)))
    ]
read_left-IsFront max_bytes front (end_of_file bytes) =
    elim (Result-cases (append_read max_bytes front bytes)) [
      | inl (grown, step) ↦ rw (step, read_left) (inl refl)
      | inr (r, step) ↦ rw (step, read_left) (inr ([], front ++ bytes, refl, sym (append-nil _)))
    ]
read_left-IsFront max_bytes front (broken bytes) =
    elim (Result-cases (append_read max_bytes front bytes)) [
      | inl (grown, step) ↦
          rw (step, read_left)
            (inr (
              [],
              grown,
              refl,
              sym (append_read-eq-append max_bytes front bytes step) ∙ sym (append-nil grown),
            ))
      | inr (r, step) ↦ rw (step, read_left) (inr ([], front ++ bytes, refl, sym (append-nil _)))
    ]

-- Nothing, or one array with the bytes with which the audio of the form begins.
pub record IsLeft (form : UploadForm) (left : List Text) : Type 0 where
  pub file : AudioFile
  pub part : form.audio_file ≡ some file
  pub read : Text
  pub tail : Text
  pub one : left ≡ read ∷ []
  pub first : all_bytes file.reads ≡ read ++ tail

IsFront-IsLeft :
    (form : UploadForm) (f : AudioFile) (left : List Text)
    → form.audio_file ≡ some f
    → IsFront [] (all_bytes f.reads) left
    → (left ≡ []) ⊎ IsLeft form left
IsFront-IsLeft form f left part (inl none_left) = inl none_left
IsFront-IsLeft form f left part (inr (tail, read, one, first)) =
    inr (record { file = f; part = part; read = read; tail = tail; one = one; first = first })

file_left-IsLeft :
    (max_bytes : ℕ) (form : UploadForm) (file : Option AudioFile)
    → form.audio_file ≡ file
    → (file_left max_bytes file ≡ []) ⊎ IsLeft form (file_left max_bytes file)
file_left-IsLeft max_bytes form none part = inl refl
file_left-IsLeft max_bytes form (some f) part = elim (Bool-cases (ltb_ℤ (pos max_bytes) f.size)) [
  | inl over ↦ rw over (inl refl)
  | inr fits ↦ rw fits (
      IsFront-IsLeft form f (read_left max_bytes [] f.reads) part
        (read_left-IsFront max_bytes [] f.reads))
]

pub left_behind-IsLeft :
    (max_bytes : ℕ) (form : UploadForm)
    → (left_behind max_bytes form ≡ []) ⊎ IsLeft form (left_behind max_bytes form)
unfolding left_behind
left_behind-IsLeft max_bytes form = elim (Bool-cases (form.parsed (form_limit max_bytes))) [
  | inl parsed ↦ rw parsed (file_left-IsLeft max_bytes form form.audio_file refl)
  | inr malformed ↦ rw malformed (inl refl)
]
