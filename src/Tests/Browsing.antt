-- ===== src/Tests/Browsing.antt =====
-- A client that browses two pages.
use tesseract_go_api.Prelude.{
  String, Bool, true, false, List, [], ◌∷◌, ◌≡◌, ◌≢◌, ◌⊎◌, inl, inr, refl, sym, ap, ◌∙◌, arith,
  ◌==◌, str_eq, All, length, if◌then◌else◌,
}
use tesseract_go_api.Response.{user_deleted}
use tesseract_go_api.Exec.{◌>>=◌, ◌>>◌}
use tesseract_go_api.Http.{Body, Handler, Request, Exchange, success_body, write_success, fresh}
use tesseract_go_api.Middleware.{Endpoint}
use tesseract_go_api.Middleware.Recorder.{recorded}
use tesseract_go_api.Middleware.Browsing.{Kept, IsServed, browse, browse-IsServed}
use tesseract_go_api.Tests.Fixtures.{at_time}
use tesseract_go_api.Tests.Api.{from_ann}

abbrev short : List (Body Unit)
short = success_body user_deleted ∷ []

abbrev long : List (Body Unit)
long = success_body user_deleted ∷ short

abbrev hash : List (Body Unit) → String
hash bodies = if length bodies == 1 then "short" else "long"

abbrev IsPage : List (Body Unit) → Type 0
IsPage bodies = (bodies ≡ short) ⊎ (bodies ≡ long)

differ : ◌≢◌ {A = String} "short" "long"
differ e = let t : true ≡ false = ap (λ s. str_eq s "short") e in cc t

apart : (a b : List (Body Unit)) → IsPage a → IsPage b → hash a ≡ hash b → a ≡ b
apart a b (inl x) (inl y) e = x ∙ sym y
apart a b (inr x) (inr y) e = x ∙ sym y
apart a b (inl x) (inr y) e = absurd (differ (sym (ap hash x) ∙ e ∙ ap hash y))
apart a b (inr x) (inl y) e = absurd (differ (sym (ap hash y) ∙ sym e ∙ ap hash x))

abbrev page_of : Bool → Handler Unit
page_of b =
    if b
    then (write_success user_deleted >> write_success user_deleted)
    else write_success user_deleted

wrote : (b : Bool) (x : Exchange Unit) → IsPage (recorded (page_of b) x).response.bodies
unfolding recorded write_success ◌>>=◌
wrote true x = inr refl
wrote false x = inl refl

ok_status : (b : Bool) (x : Exchange Unit) → (recorded (page_of b) x).response.status ≢ 304
unfolding recorded write_success ◌>>=◌
ok_status true x = λ e. ground arith
ok_status false x = λ e. ground arith

abbrev pages : Endpoint Unit Unit
pages r = page_of (str_eq r.path "/long")

abbrev start : Exchange Unit
start = record { world = at_time 100; response = fresh }

abbrev visits : List (Request Unit × Exchange Unit)
visits =
    (from_ann, start)
    ∷ (record from_ann { path = "/long" }, start)
    ∷ (record from_ann { path = "/long" }, start)
    ∷ []

abbrev kept : Kept Unit
kept = record { bodies = short; tag = "short" }

browse-IsServed_example : All IsServed (browse hash pages kept visits)
browse-IsServed_example =
    browse-IsServed hash pages IsPage apart (λ r. wrote (str_eq r.path "/long"))
      (λ r. ok_status (str_eq r.path "/long")) kept refl (inl refl) visits
