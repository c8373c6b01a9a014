-- ===== src/Outside.antt =====
-- What the worker calls outside the repository, besides Redis: the clock, timers and contexts, the
-- network, the multipart encoder and the URL parser. All of it is a parameter. A value of World is
-- the state of the surroundings, from which every answer follows.
use worker_thoth.Base.{ℕ, Bool, Option, List, Text, ℤ, GoError, Result}

-- A request that is ready to be sent.
pub record HttpRequest : Type 0 where
  pub method : Text
  pub url : Text
  pub body : Text
  pub headers : List (Text × Text)

-- The bytes that a body yields, and the error that ends it, if it is not EOF.
pub record Body : Type 0 where
  pub bytes : Text
  pub fault : Option GoError

pub record Response : Type 0 where
  pub status_code : ℕ
  pub content_length : ℤ
  pub body : Body

pub record Outside : Type 1 where
  pub World : Type 0
  -- nowRFC3339.
  pub now : World → Text
  -- The helper sleep: `false` if the context is cancelled before the nanoseconds are over.
  pub sleep : ℕ → World → Bool × World
  pub ctx_err : World → GoError
  -- `select` on the gate channel of the whisper client and the context: `none` if the gate was
  -- entered, else the context's error; and the receive that leaves the gate.
  pub enter_gate : World → Option GoError × World
  pub leave_gate : World → World
  -- http.NewRequestWithContext fails on a URL that does not parse.
  pub request_error : Text → Option GoError
  -- http.Client.Do, under a timeout in nanoseconds.
  pub send : ℕ → HttpRequest → World → Result GoError Response × World
  -- A multipart.Writer over a bytes.Buffer.
  pub Form : Type 0
  pub new_form : World → Form
  pub create_form_file : Text → Text → Form → Result GoError Form
  pub write_part : Text → Form → Result GoError Form
  pub write_field : Text → Text → Form → Result GoError Form
  pub close_form : Form → Result GoError Form
  pub form_bytes : Form → Text
  pub content_type : Form → Text
  -- The path of url.Parse, `none` for its error.
  pub url_path : Text → Option Text
  -- strconv.Quote, for the verb %q.
  pub quote : Text → Text
