-- ===== src/Tests/Refresh.antt =====
-- The refresh of Ann's session, and its answers.
use tesseract_go_api.Prelude.{String, ◌≡◌, false, refl, none, some, arith}
use tesseract_go_api.Exec.{ok}
use tesseract_go_api.Store.{World}
use tesseract_go_api.Http.{Request, run, fresh, write_header}
use tesseract_go_api.Tokens.Repository
use tesseract_go_api.Auth.Service
use tesseract_go_api.Auth.Handler
use tesseract_go_api.Auth.Handler.{Config}
use tesseract_go_api.Auth.Rotation.{rotated, successor}
use tesseract_go_api.Auth.Success.{refresh_session-succeeds}
use tesseract_go_api.Auth.Answer.{Answered, refresh_session-answer}
use tesseract_go_api.Tests.Fixtures.{platform, ttl, meta, user_row, token_row, at_time}
use tesseract_go_api.Tests.Api.{api, from_ann}

refresh_session-succeeds_example :
    (access : String) × (w' : World) × (Service.refresh_session platform ttl "a1" meta (at_time 100)
      ≡ (ok (access, "r0"), w'))
    × (w'.db.tokens
        ≡ rotated "a1"
            (successor platform ttl
              (token_row 4 1 "a1" false none 1_000_000_000)
              meta
              (at_time 100))
            100
            (at_time 100).db)
refresh_session-succeeds_example =
    refresh_session-succeeds platform ttl "a1" meta (at_time 100)
      (token_row 4 1 "a1" false none 1_000_000_000) (user_row 1 "ann@x" "ann" none) refl refl refl
      (omega arith) refl refl

refresh_session-answer_example :
    Answered platform api.auth Unit from_ann "a1"
      (at_time 100)
      (run (Handler.refresh_session platform api.auth Unit from_ann) (at_time 100))
refresh_session-answer_example =
    refresh_session-answer platform api.auth Unit from_ann "a1" (at_time 100) refl

-- In the grace period the cookies stay as they are.
abbrev late : Request Unit
late = record from_ann { cookie = λ name. some "a0" }

late_answer :
    (run (Handler.refresh_session platform api.auth Unit late) (at_time 100)).response ≡ fresh
unfolding run Handler.refresh_session Service.refresh_session Service.exchange Service.reuse
    Service.or_refused Repository.get_by_hash write_header
late_answer = refl
