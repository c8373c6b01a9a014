-- ===== src/Main/JobId.antt =====
-- The IDs of newJobID.
use worker_thoth.Base.{ℕ, ◌*◌, ◌/◌, ◌%◌, ◌<◌, ◌≡◌, refl, All, some, [], ◌∷◌, Text, length, arith}
use worker_thoth.Main.{hex_digit, hex_encode, new_job_id}

abbrev pub IsByte : ℕ → Type 0
IsByte b = b < 256

hex_digit-injective : (a b : ℕ) → a < 16 → b < 16 → hex_digit a ≡ hex_digit b → a ≡ b
hex_digit-injective a b la lb e = ground arith

byte-of_digits :
    (a b : ℕ)
    → a < 256
    → b < 256
    → hex_digit (a / 16) ≡ hex_digit (b / 16)
    → hex_digit (a % 16) ≡ hex_digit (b % 16)
    → a ≡ b
byte-of_digits a b la lb high low = omega (
  arith,
  hex_digit-injective (a / 16) (b / 16) (omega arith) (omega arith) high,
  hex_digit-injective (a % 16) (b % 16) (omega arith) (omega arith) low,
)

hex_encode-injective :
    (s t : Text) → All IsByte s → All IsByte t → hex_encode s ≡ hex_encode t → s ≡ t
hex_encode-injective [] [] bs bt e = refl
hex_encode-injective [] (b ∷ t) bs bt e = absurd (cc e)
hex_encode-injective (a ∷ s) [] bs bt e = absurd (cc e)
hex_encode-injective (a ∷ s) (b ∷ t) bs bt e =
    let same : a ≡ b = byte-of_digits a b bs.0 bt.0 (cc e) (cc e) in
    let rest : s ≡ t = hex_encode-injective s t bs.1 bt.1 (cc e) in cc (same, rest)

length-hex_encode : (s : Text) → length (hex_encode s) ≡ 2 * length s
length-hex_encode [] = refl
length-hex_encode (b ∷ s) = omega (arith, length-hex_encode s)

-- An ID of 16 random bytes has 32 characters, and other bytes give another ID.
pub new_job_id-injective :
    (s t now now' : Text)
    → All IsByte s
    → All IsByte t
    → length s ≡ 16
    → (length (new_job_id (some s) now) ≡ 32)
      × (new_job_id (some s) now ≡ new_job_id (some t) now' → s ≡ t)
unfolding new_job_id
new_job_id-injective s t now now' bs bt sixteen =
    (omega (arith, length-hex_encode s), hex_encode-injective s t bs bt)
