-- ===== src/Admin/Keeps.antt =====
-- The integrity of the tables under an administrator's actions.
use tesseract_go_api.Store.{Uuid}
use tesseract_go_api.Store.Keeps.{Keeps, keeps_rules}
use tesseract_go_api.Store.Valid.{IsValid}
use tesseract_go_api.Platform.{Platform}
use tesseract_go_api.Users.Keeps.{Keeps-purge_user, Keeps-restore_user}
use tesseract_go_api.Admin.Service

pub Keeps-purge : (target admin : Uuid) → Keeps IsValid (Service.purge_user target admin)
unfolding Service.purge_user
Keeps-purge target admin = search (keeps_rules, Keeps-purge_user)

pub Keeps-restore :
    (p : Platform) (target admin : Uuid) → Keeps IsValid (Service.restore_user p target admin)
unfolding Service.restore_user
Keeps-restore p target admin = search (keeps_rules, Keeps-restore_user)
