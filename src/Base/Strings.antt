-- ===== src/Base/Strings.antt =====
-- What the program uses of Go's packages strings and strconv, on byte strings.
pub mod Trim
pub mod Decimal
use mathlib.Core.List.{reverse}
use Prim.Native.Nat.{ℕ, zero, suc, ◌+◌, ◌-◌, ◌*◌, ◌^◌}
use mathlib.Core.Bool.{Bool, true, false, ◌&&◌}
use mathlib.Core.Option.{Option, none, some}
use mathlib.Core.List.{List, [], ◌∷◌, map}
use worker_thoth.Base.Tests.{ltb, leb, ◌==◌, if◌then◌else◌}
use worker_thoth.Base.Lists.{length}
use worker_thoth.Base.Bytes.{Text, is_empty}
use worker_thoth.Base.Int.{ℤ, pos, negsuc}

-- What is left of `s` behind the prefix `p`.
unfoldable pub strip_prefix : Text → Text → Option Text
strip_prefix [] s = some s
strip_prefix (x ∷ p) [] = none
strip_prefix (x ∷ p) (y ∷ s) = if x == y then strip_prefix p s else none

strip_any : List Text → Text → Option Text
strip_any [] s = none
strip_any (p ∷ ps) s = elim (strip_prefix p s) [ none ↦ strip_any ps s | some r ↦ some r ]

-- The code points of unicode.IsSpace, in UTF-8.
abbrev spaces : List Text
spaces =
    (0x20 ∷ [])
    ∷ (0x09 ∷ [])
    ∷ (0x0a ∷ [])
    ∷ (0x0b ∷ [])
    ∷ (0x0c ∷ [])
    ∷ (0x0d ∷ [])
    ∷ (0xc2 ∷ 0x85 ∷ [])
    ∷ (0xc2 ∷ 0xa0 ∷ [])
    ∷ (0xe1 ∷ 0x9a ∷ 0x80 ∷ [])
    ∷ (0xe2 ∷ 0x80 ∷ 0x80 ∷ [])
    ∷ (0xe2 ∷ 0x80 ∷ 0x81 ∷ [])
    ∷ (0xe2 ∷ 0x80 ∷ 0x82 ∷ [])
    ∷ (0xe2 ∷ 0x80 ∷ 0x83 ∷ [])
    ∷ (0xe2 ∷ 0x80 ∷ 0x84 ∷ [])
    ∷ (0xe2 ∷ 0x80 ∷ 0x85 ∷ [])
    ∷ (0xe2 ∷ 0x80 ∷ 0x86 ∷ [])
    ∷ (0xe2 ∷ 0x80 ∷ 0x87 ∷ [])
    ∷ (0xe2 ∷ 0x80 ∷ 0x88 ∷ [])
    ∷ (0xe2 ∷ 0x80 ∷ 0x89 ∷ [])
    ∷ (0xe2 ∷ 0x80 ∷ 0x8a ∷ [])
    ∷ (0xe2 ∷ 0x80 ∷ 0xa8 ∷ [])
    ∷ (0xe2 ∷ 0x80 ∷ 0xa9 ∷ [])
    ∷ (0xe2 ∷ 0x80 ∷ 0xaf ∷ [])
    ∷ (0xe2 ∷ 0x81 ∷ 0x9f ∷ [])
    ∷ (0xe3 ∷ 0x80 ∷ 0x80 ∷ [])
    ∷ []

strip_all : List Text → ℕ → Text → Text
strip_all ps zero s = s
strip_all ps (suc fuel) s = elim (strip_any ps s) [ none ↦ s | some r ↦ strip_all ps fuel r ]

-- strings.TrimSpace. A byte of the text is fuel for one space.
unfoldable pub trim_space : Text → Text
unfolding strip_all strip_any strip_prefix
trim_space s =
    let front = strip_all spaces (length s) s in
    reverse (strip_all (map reverse spaces) (length s) (reverse front))

-- strings.Cut at a separator of one byte: the part before it, the part behind it.
unfoldable pub cut : ℕ → Text → Option (Text × Text)
cut sep [] = none
cut sep (x ∷ s) =
    let rest = cut sep s in
    if x == sep
    then some ([], s)
    else elim rest [ none ↦ none | some (before, after) ↦ some (x ∷ before, after) ]

abbrev pub is_digit : ℕ → Bool
is_digit c = leb b'0' c && leb c b'9'

-- The number that decimal digits spell, after those read so far.
unfoldable pub digits_value : ℕ → Text → Option ℕ
digits_value n [] = some n
digits_value n (c ∷ s) =
    let rest = digits_value (n * 10 + (c - b'0')) s in if is_digit c then rest else none

abbrev negated : ℕ → ℤ
negated zero = pos 0
negated (suc k) = negsuc k

-- Within the int64 range; a magnitude of 2^63 is negative only.
abbrev signed : Bool → ℕ → Option ℤ
signed true n = if leb n (2 ^ 63) then some (negated n) else none
signed false n = if ltb n (2 ^ 63) then some (pos n) else none

unsigned_part : Bool → Text → Option ℤ
unsigned_part negative s =
    if is_empty s
    then none
    else elim (digits_value 0 s) [ none ↦ none | some n ↦ signed negative n ]

-- strconv.Atoi and strconv.ParseInt(s, 10, 64), `none` for their error.
unfoldable pub atoi : Text → Option ℤ
unfolding unsigned_part digits_value
atoi [] = none
atoi (c ∷ s) =
    if c == b'-'
    then unsigned_part true s
    else if c == b'+'
    then unsigned_part false s
    else unsigned_part false (c ∷ s)
