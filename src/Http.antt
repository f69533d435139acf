-- ===== src/Http.antt =====
-- The part of net/http that the handlers use: requests with their context, and response writers.
use aizen_gate.Base.{ℕ, ◌+◌, ◌≡◌, String, Option, none, some, List, [], ◌∷◌, ◌++◌, map, get_or}
use aizen_gate.Base.Dict.{Dict, lookup, insert}
use aizen_gate.Policy.{Policy}

-- `auth.UserIdentity`; it stands here because a context carries one.
pub record UserIdentity : Type 0 where
  pub user_id : String
  pub roles : List String
  pub tenant_id : String

-- The context keys of the packages auth and proxy, a field each. The two keys of package auth with
-- the text "zengate.auth.identity" are one key.
pub record Context : Type 0 where
  pub identity : Option UserIdentity
  pub client_id : Option String
  pub client_tier : Option String
  pub request_id : Option String
  pub start_time : Option ℕ

-- Header names are in canonical form, and `Get` of an absent one is "". The query and the URL are
-- parsed; the body is read whole.
pub record Request : Type 0 where
  pub method : String
  pub path : String
  pub query : Dict String
  pub headers : Dict String
  pub body : String
  pub remote_addr : String
  pub context : Context

abbrev pub get_header : String → Dict String → String
get_header name headers = get_or (lookup name headers) ""

-- What a handler encodes or prints into the body.
pub data Chunk : Type 0 where
  object : Dict String → Chunk
  policies : List Policy → Chunk
  saved : String → Policy → Chunk
  text : String → Chunk

-- A `responseWriter` of package proxy around the writer.
pub record Capture : Type 0 where
  pub status_code : ℕ
  pub written : ℕ

-- `status` is the code on the wire, once it is sent. `captures` holds the `responseWriter`s that
-- a call passes through, the innermost first; `size` is the number of bytes of a chunk.
pub record Writer : Type 0 where
  pub headers : Dict String
  pub status : Option ℕ
  pub body : List Chunk
  pub captures : List Capture
  pub size : Chunk → ℕ

-- A header that is set behind the status line is not sent.
unfoldable pub set_header : String → String → Writer → Writer
set_header name v w = elim w.status [
  | none ↦ record w { headers = insert name v w.headers }
  | some _ ↦ w
]

-- The status line is sent once.
abbrev pub first_status : ℕ → Option ℕ → Option ℕ
first_status code none = some code
first_status code (some sent) = some sent

abbrev pub capture_status : ℕ → Capture → Capture
capture_status code c = record c { status_code = code }

-- `WriteHeader` of each `responseWriter`, then of the server.
unfoldable pub write_header : ℕ → Writer → Writer
write_header code w = record w {
  status = first_status code w.status;
  captures = map (capture_status code) w.captures;
}

abbrev pub capture_written : ℕ → Capture → Capture
capture_written n c = record c { written = c.written + n }

-- `Write`: 200 is sent if no status was.
unfoldable pub write : Chunk → Writer → Writer
write chunk w = record w {
  status = first_status 200 w.status;
  body = w.body ++ chunk ∷ [];
  captures = map (capture_written (w.size chunk)) w.captures;
}

-- `WriteHeader`, then one chunk.
unfoldable pub respond : ℕ → Chunk → Writer → Writer
unfolding write_header write
respond code chunk w = write chunk (write_header code w)

-- A handler returns, or panics with what it has done so far.
pub data Outcome (S : Type 0) : Type 0 where
  done : Writer → S → Outcome S
  panicked : Writer → S → Outcome S

abbrev pub Handler : Type 0 → Type 0
Handler S = Request → Writer → S → Outcome S

abbrev pub Middleware : Type 0 → Type 0
Middleware S = Handler S → Handler S

-- A part of the gateway's state that a handler owns.
pub record Part (S X : Type 0) : Type 0 where
  pub get : S → X
  pub put : X → S → S
  pub get-put : (x : X) (s : S) → get (put x s) ≡ x

abbrev pub json_error : String → Chunk
json_error message = object (("error", message) ∷ [])

abbrev pub writer_of : {S : Type 0} → Outcome S → Writer
writer_of (done w s) = w
writer_of (panicked w s) = w

abbrev pub state_of : {S : Type 0} → Outcome S → S
state_of (done w s) = s
state_of (panicked w s) = s

abbrev pub status_of : {S : Type 0} → Outcome S → Option ℕ
status_of o = (writer_of o).status
