-- ===== src/Download.antt =====
-- internal/worker/download.go: audio by URL, within the limit of bytes.
pub mod Limits
pub mod Names
mod Tests
use worker_thoth.Base.{
  ℕ, ◌+◌, ◌^◌, ◌≡◌, Bool, true, false, ◌||◌, not, Option, none, some, List, [], ◌∷◌, ◌++◌, Text,
  codes, decimal, is_empty, text_eq, length, take, ltb, leb, ◌==◌, if◌then◌else◌, pos, ltb_ℤ,
  GoError, message, wrap, too_large, Result, ok, err,
}
use mathlib.Core.List.{reverse}
use worker_thoth.Outside.{Outside, HttpRequest, Response, Body}

-- io.ReadAll(io.LimitReader(body, n)): a limit that is reached ends the read before any fault.
unfoldable pub read_limited : ℕ → Body → Result GoError Text
read_limited n b =
    if leb n (length b.bytes)
    then ok (take n b.bytes)
    else elim b.fault [ none ↦ ok b.bytes | some e ↦ err e ]

-- maxBytes + 1 as an int64: it wraps to a negative limit, under which nothing is read.
abbrev pub read_limit : ℕ → ℕ
read_limit max_bytes = if ltb (max_bytes + 1) (2 ^ 63) then max_bytes + 1 else 0

-- The path without the slashes at its end, reversed as it is given.
abbrev drop_slashes : Text → Text
drop_slashes [] = []
drop_slashes (c ∷ s) = if c == b'/' then drop_slashes s else c ∷ s

-- Of a reversed path, its last element.
abbrev up_to_slash : Text → Text
up_to_slash [] = []
up_to_slash (c ∷ s) = if c == b'/' then [] else c ∷ up_to_slash s

-- path.Base.
unfoldable pub path_base : Text → Text
path_base s =
    let last = reverse (up_to_slash (drop_slashes (reverse s))) in
    if is_empty s then codes "." else if is_empty last then codes "/" else last

-- filenameFromURL, behind the call of url.Parse.
unfoldable pub filename_of_path : Option Text → Text
filename_of_path none = codes "audio"
filename_of_path (some path) =
    let base = path_base path in
    if is_empty path
    then codes "audio"
    else if is_empty base || text_eq base (codes ".") || text_eq base (codes "/")
    then codes "audio"
    else base

-- What download makes of the response.
unfoldable pub body_within : ℕ → Response → Result GoError Text
body_within max_bytes resp =
    if not (resp.status_code == 200)
    then err (message (codes "download returned status " ++ decimal resp.status_code))
    else if ltb_ℤ (pos max_bytes) resp.content_length
    then err (too_large max_bytes)
    else elim (read_limited (read_limit max_bytes) resp.body) [
      | err e ↦ err (wrap (codes "read download body") e)
      | ok bytes ↦ if ltb max_bytes (length bytes) then err (too_large max_bytes) else ok bytes
    ]

-- The array of io.ReadAll, where download returns an error behind it: it is not overwritten.
unfoldable pub left_behind : ℕ → Response → List Text
left_behind max_bytes resp =
    if not (resp.status_code == 200) || ltb_ℤ (pos max_bytes) resp.content_length
    then []
    else elim (body_within max_bytes resp) [
      | ok bytes ↦ []
      | err e ↦ take (read_limit max_bytes) resp.body.bytes ∷ []
    ]

abbrev pub download_left : ℕ → Result GoError Response → List Text
download_left max_bytes (err e) = []
download_left max_bytes (ok resp) = left_behind max_bytes resp

abbrev pub download_result : ℕ → Result GoError Response → Result GoError Text
download_result max_bytes (err e) = err (wrap (codes "download") e)
download_result max_bytes (ok resp) = body_within max_bytes resp

abbrev pub named : Text → Result GoError Text → Result GoError (Text × Text)
named filename (err e) = err e
named filename (ok bytes) = ok (filename, bytes)

module _ (x : Outside) where
  open x use {World, request_error, send, url_path}

  -- filenameFromURL.
  abbrev pub filename_from_url : Text → Text
  filename_from_url raw_url = filename_of_path (url_path raw_url)

  abbrev pub get_request : Text → HttpRequest
  get_request url = record { method = codes "GET"; url = url; body = []; headers = [] }

  -- The result, and the arrays that are left.
  unfoldable pub download : Text → ℕ → ℕ → World → Result GoError (Text × Text) × List Text × World
  unfolding body_within read_limited
  download url max_bytes timeout w = elim (request_error url) [
    | some e ↦ (err (wrap (codes "build download request") e), [], w)
    | none ↦
        let (reply, w') = send timeout (get_request url) w in
        (
          named (filename_from_url url) (download_result max_bytes reply),
          download_left max_bytes reply,
          w',
        )
  ]
