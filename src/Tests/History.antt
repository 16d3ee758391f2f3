-- ===== src/Tests/History.antt =====
-- The small world meets the constraints.
use tesseract_go_api.Prelude.{refl, arith}
use tesseract_go_api.Store.Valid.{IsValid}
use tesseract_go_api.Tests.Fixtures.{tables}

pub tables-IsValid : IsValid tables
tables-IsValid = record {
  users_valid = record {
    ids = (refl, (refl, (refl, tt)));
    below = omega arith;
    emails = (refl, (refl, (refl, tt)));
    slugs = (refl, (refl, (refl, tt)));
  };
  tokens_valid = record {
    ids = (refl, (refl, (refl, tt)));
    below = omega arith;
    hashes = (refl, (refl, (refl, tt)));
    owners = (refl, (refl, (refl, tt)));
    stamped = ((λ e. cc), ((λ e. cc), ((λ e. cc), tt)));
  };
}
