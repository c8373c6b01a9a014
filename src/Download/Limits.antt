-- ===== src/Download/Limits.antt =====
-- The limit of bytes holds whatever the server sends or announces.
use worker_thoth.Base.{
  ℕ, ◌+◌, ◌-◌, ◌^◌, ◌≤◌, ◌<◌, ◌≡◌, ◌↔◌, false, none, [], arith, Text, length, length-take, pos,
  ltb_ℤ, ok,
}
use worker_thoth.Outside.{Response, Body}
use worker_thoth.Download.{read_limited, body_within}

-- A reply that is taken: complete, of status 200, and within the limit by length and by header.
pub record IsTaken (max_bytes : ℕ) (resp : Response) (bytes : Text) : Type 0 where
  pub status : resp.status_code ≡ 200
  pub announced : ltb_ℤ (pos max_bytes) resp.content_length ≡ false
  pub complete : resp.body.fault ≡ none
  pub whole : resp.body.bytes ≡ bytes
  pub within : length bytes ≤ max_bytes

-- Short of the limit the read gives the whole body; at the limit, that many bytes.
read_limited-within :
    (max_bytes : ℕ) (b : Body) (bytes : Text)
    → read_limited (max_bytes + 1) b ≡ ok bytes
    → length bytes ≤ max_bytes
    → (b.fault ≡ none) × (b.bytes ≡ bytes)
unfolding read_limited
read_limited-within max_bytes b bytes h within = ground (arith, length-take (max_bytes + 1) b.bytes)

read_limited-whole :
    (max_bytes : ℕ) (b : Body)
    → b.fault ≡ none
    → length b.bytes ≤ max_bytes
    → read_limited (max_bytes + 1) b ≡ ok b.bytes
unfolding read_limited
read_limited-whole max_bytes b e h = ground arith

-- Whatever the limit is, and whatever the server announces and sends, a download that is taken does
-- not exceed the limit.
pub body_within-le :
    (max_bytes : ℕ) (resp : Response) (bytes : Text)
    → body_within max_bytes resp ≡ ok bytes
    → length bytes ≤ max_bytes
unfolding body_within
body_within-le max_bytes resp bytes h = ground arith

-- With a limit of fewer than 2^63 - 1 bytes, a download is taken exactly if it has status 200,
-- announces no more than the limit, is complete, and is within the limit; what is returned is the
-- whole body.
pub body_ok_iff :
    (max_bytes : ℕ) (resp : Response) (bytes : Text)
    → max_bytes + 1 < 2 ^ 63
    → (body_within max_bytes resp ≡ ok bytes) ↔ IsTaken max_bytes resp bytes
unfolding body_within
body_ok_iff max_bytes resp bytes small = (
  λ h. ground (arith, read_limited-within max_bytes resp.body bytes),
  λ t. ground (arith, read_limited-whole max_bytes resp.body),
)

read_limited-zero : (b : Body) → read_limited 0 b ≡ ok []
unfolding read_limited
read_limited-zero b = ground arith

-- With a limit of 2^63 - 1 bytes the limit of the read wraps around, and a download with status 200
-- that announces no more than the limit is taken as an empty one.
pub body_lost_at_max :
    (resp : Response)
    → resp.status_code ≡ 200
    → ltb_ℤ (pos (2 ^ 63 - 1)) resp.content_length ≡ false
    → body_within (2 ^ 63 - 1) resp ≡ ok []
unfolding body_within
body_lost_at_max resp status announced = rw (status, announced, read_limited-zero resp.body)
