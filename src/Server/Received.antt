-- ===== src/Server/Received.antt =====
-- What handleUpload takes from a form: the whole file, within the limit, or a refusal.
use mathlib.Core.List.{append-nil, append_assoc}
use worker_thoth.Base.{
  ℕ, ◌≤◌, ◌≡◌, refl, ap, ◌∙◌, ◌≢◌, subst, sym, inl, inr, Bool-cases, Option, none, some,
  Option-cases, [], ◌∷◌, ◌++◌, arith, Text, length, ltb, pos, ltb_ℤ, GoError, Result, ok, err,
  >>=-eq-ok, ok-injective, ◌>>=◌,
}
use worker_thoth.Server.{
  Reply, Reads, more, end_of_file, broken, UploadForm, AudioFile, form_limit, append_read,
  read_audio, received_file, received, handle_enqueue_error,
}

-- The contents that a file yields, if it is read to its end.
abbrev pub contents : Reads → Option Text
contents (more bytes rest) = elim (contents rest) [ none ↦ none | some tail ↦ some (bytes ++ tail) ]
contents (end_of_file bytes) = some bytes
contents (broken bytes) = none

abbrev pub IsRefusal : {A : Type 0} → Result Reply A → Type 0
IsRefusal (ok a) = Unit
IsRefusal (err r) = r.status ≢ 202

append_read-eq-ok :
    (max_bytes : ℕ) (front bytes : Text) {grown : Text}
    → append_read max_bytes front bytes ≡ ok grown
    → length front ≤ max_bytes
    → (grown ≡ front ++ bytes) × (length grown ≤ max_bytes)
append_read-eq-ok max_bytes front [] h le =
    (sym (ok-injective h) ∙ sym (append-nil front), omega (arith, ap length (ok-injective h)))
append_read-eq-ok max_bytes front (b ∷ bytes) h le =
    elim (Bool-cases (ltb max_bytes (length (front ++ b ∷ bytes)))) [
      | inl over ↦ absurd (cc (rw over at h))
      | inr within ↦
          let same = ok-injective (rw within at h) in (sym same, ground (arith, ap length same))
    ]

append_read-IsRefusal :
    (max_bytes : ℕ) (front bytes : Text) → IsRefusal (append_read max_bytes front bytes)
append_read-IsRefusal max_bytes front bytes = ground arith

bind-IsRefusal :
    {A B : Type 0} (call : Result Reply A) (rest : A → Result Reply B)
    → IsRefusal call
    → ((a : A) → IsRefusal (rest a))
    → IsRefusal (call >>= rest)
bind-IsRefusal (ok a) rest h k = k a
bind-IsRefusal (err r) rest h k = h

read_audio-IsRefusal :
    (max_bytes : ℕ) (front : Text) (reads : Reads) → IsRefusal (read_audio max_bytes front reads)
unfolding read_audio
read_audio-IsRefusal max_bytes front (more bytes rest) =
    bind-IsRefusal (append_read max_bytes front bytes) _
      (append_read-IsRefusal max_bytes front bytes)
      (λ grown. read_audio-IsRefusal max_bytes grown rest)
read_audio-IsRefusal max_bytes front (end_of_file bytes) =
    append_read-IsRefusal max_bytes front bytes
read_audio-IsRefusal max_bytes front (broken bytes) =
    bind-IsRefusal (append_read max_bytes front bytes) _
      (append_read-IsRefusal max_bytes front bytes) (λ grown e. omega arith)

file-IsRefusal :
    (max_bytes : ℕ) (file : Option AudioFile) → IsRefusal (received_file max_bytes file)
file-IsRefusal max_bytes none = λ e. omega arith
file-IsRefusal max_bytes (some f) = elim (Bool-cases (ltb_ℤ (pos max_bytes) f.size)) [
  | inl over ↦ rw over (λ e. omega arith)
  | inr fits ↦ rw fits (
      bind-IsRefusal (read_audio max_bytes [] f.reads) _ (read_audio-IsRefusal max_bytes [] f.reads)
        (λ bytes. tt))
]

pub received-IsRefusal : (max_bytes : ℕ) (form : UploadForm) → IsRefusal (received max_bytes form)
unfolding received
received-IsRefusal max_bytes form = elim (Bool-cases (form.parsed (form_limit max_bytes))) [
  | inl parsed ↦ rw parsed (file-IsRefusal max_bytes form.audio_file)
  | inr malformed ↦ rw malformed (λ e. omega arith)
]

pub enqueue_error-status : (e : GoError) → (handle_enqueue_error e).status ≢ 202
unfolding handle_enqueue_error
enqueue_error-status e = ground arith

-- The loop has read the whole file, within the limit.
record Whole (max_bytes : ℕ) (front : Text) (reads : Reads) (bytes : Text) : Type 0 where
  tail : Text
  contents_tail : contents reads ≡ some tail
  joined : bytes ≡ front ++ tail
  within : length bytes ≤ max_bytes

read_audio-Whole :
    (max_bytes : ℕ) (front : Text) (reads : Reads) {bytes : Text}
    → read_audio max_bytes front reads ≡ ok bytes
    → length front ≤ max_bytes
    → Whole max_bytes front reads bytes
unfolding read_audio
read_audio-Whole max_bytes front (more bytes rest) h le =
    let (grown, step, h') = >>=-eq-ok (append_read max_bytes front bytes) _ h in
    let (same, grown_le) = append_read-eq-ok max_bytes front bytes step le in
    let w = read_audio-Whole max_bytes grown rest h' grown_le in
    record {
      tail = bytes ++ w.tail;
      contents_tail = rw w.contents_tail;
      joined = w.joined ∙ ap (λ g. g ++ w.tail) same ∙ append_assoc front bytes w.tail;
      within = w.within;
    }
read_audio-Whole max_bytes front (end_of_file bytes) h le =
    let (same, within) = append_read-eq-ok max_bytes front bytes h le in
    record { tail = bytes; contents_tail = refl; joined = same; within = within }
read_audio-Whole max_bytes front (broken bytes) h le =
    absurd (cc (>>=-eq-ok (append_read max_bytes front bytes) _ h).2)

-- What is taken is the part "audio" under its name, whole, and within the limit.
pub record IsReceived (max_bytes : ℕ) (form : UploadForm) (filename bytes : Text) : Type 0 where
  pub file : AudioFile
  pub part : form.audio_file ≡ some file
  pub named : filename ≡ file.filename
  pub whole : contents file.reads ≡ some bytes
  pub within : length bytes ≤ max_bytes

file-IsReceived :
    (max_bytes : ℕ) (form : UploadForm) (f : AudioFile) {filename bytes : Text}
    → form.audio_file ≡ some f
    → received_file max_bytes (some f) ≡ ok (filename, bytes)
    → IsReceived max_bytes form filename bytes
file-IsReceived max_bytes form f part h = elim (Bool-cases (ltb_ℤ (pos max_bytes) f.size)) [
  | inl over ↦ absurd (cc (rw over at h))
  | inr fits ↦
      let (bytes', read, h') = >>=-eq-ok (read_audio max_bytes [] f.reads) _ (rw fits at h) in
      let w = read_audio-Whole max_bytes [] f.reads read (omega arith) in
      let same = ok-injective h' in
      record {
        file = f;
        part = part;
        named = sym (ap (λ p. p.0) same);
        whole = w.contents_tail ∙ ap some (sym w.joined) ∙ ap (λ p. some p.1) same;
        within = subst (λ b. length b ≤ max_bytes) (ap (λ p. p.1) same) w.within;
      }
]

pub received-IsReceived :
    (max_bytes : ℕ) (form : UploadForm) {filename bytes : Text}
    → received max_bytes form ≡ ok (filename, bytes)
    → IsReceived max_bytes form filename bytes
unfolding received
received-IsReceived max_bytes form h = elim (Bool-cases (form.parsed (form_limit max_bytes))) [
  | inl parsed ↦ elim (Option-cases form.audio_file) [
    | inl missing ↦ absurd (cc (rw (parsed, missing) at h))
    | inr (f, part) ↦ file-IsReceived max_bytes form f part (rw (parsed, part) at h)
  ]
  | inr malformed ↦ absurd (cc (rw malformed at h))
]
