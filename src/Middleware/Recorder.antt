-- ===== src/Middleware/Recorder.antt =====
-- cmd/api/middleware.go: the recorder of responses, and ETagChecker. `hash` is the quoted SHA-1 of
-- the bytes that the bodies are written as.
use tesseract_go_api.Prelude.{String, List, [], ◌&&◌, ◌==◌, not, str_eq, if◌then◌else◌}
use tesseract_go_api.Exec.{Result, ok}
use tesseract_go_api.Http.{
  Body, Response, Exchange, Handler, plain_text, put_header, answer, write_error,
}
use tesseract_go_api.Middleware.{Endpoint}

module _ {D : Type 0} where
  -- `responseRecorder`: status and body are its own, the headers those of the writer that it wraps.
  abbrev pub recorder : Response D → Response D
  recorder out = record out { status = 200; bodies = [] }

  -- What was written, with the error that a handler returned with.
  abbrev pub close : Result (Unit {0}) × Exchange D → Exchange D
  close (r, y) = (answer r y).1

  -- What `next` writes into the recorder, with its error.
  unfoldable pub recorded : Handler D → Exchange D → Exchange D
  unfolding write_error
  recorded next x = close (next (record x { response = recorder x.response }))

  abbrev pub tagged : String → Response D → Response D
  tagged etag out = record out {
    headers =
        put_header "Cache-Control" (plain_text "no-cache")
          (put_header "ETag" (plain_text etag) out.headers);
  }

  -- The status 304 without a body.
  abbrev pub not_modified : Response D → Response D
  not_modified out = record out { status = 304; bodies = [] }

  -- What is sent of a recorded response.
  unfoldable pub send :
      (List (Body D) → String) → (method if_none_match : String) → Response D → Response D
  unfolding put_header
  send hash method if_none_match out =
      if not (str_eq method "GET" && out.status == 200)
      then out
      else if str_eq if_none_match (hash out.bodies)
      then not_modified out
      else tagged (hash out.bodies) out

-- `ETagChecker`.
unfoldable pub etag_checker :
    {B D : Type 0} → (List (Body D) → String) → Endpoint B D → Endpoint B D
unfolding recorded send
etag_checker hash next r x =
    let y = recorded (next r) x in
    (ok tt, record y { response = send hash r.method (r.header "If-None-Match") y.response })
