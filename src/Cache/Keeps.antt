-- ===== src/Cache/Keeps.antt =====
-- The commands of the cache leave the tables alone.
use tesseract_go_api.Prelude.{String, List, arith}
use tesseract_go_api.Store.{Uuid, Tables, Key, CacheValue}
use tesseract_go_api.Store.Keeps.{Keeps, Keeps_of_same}
use tesseract_go_api.Cache.Commands.{get, set, unlink, get_by_mapper, invalidate_user_with_mapper}

module _ {P : Tables → Type 0} where
  pub Keeps-get : (k : Key) → Keeps P (get k)
  unfolding get
  Keeps-get k = Keeps_of_same _ λ w. ground arith

  pub Keeps-set : (k : Key) (v : CacheValue) → Keeps P (set k v)
  unfolding set
  Keeps-set k v = Keeps_of_same _ λ w. ground arith

  pub Keeps-unlink : (ks : List Key) → Keeps P (unlink ks)
  unfolding unlink
  Keeps-unlink ks = Keeps_of_same _ λ w. ground arith

  pub Keeps-get_by_mapper :
      (missing : String) (mapper : Key) (entity : Uuid → Key)
      → Keeps P (get_by_mapper missing mapper entity)
  unfolding get_by_mapper
  Keeps-get_by_mapper missing mapper entity = Keeps_of_same _ λ w. ground arith

  pub Keeps-invalidate_user : (id : Uuid) → Keeps P (invalidate_user_with_mapper id)
  unfolding invalidate_user_with_mapper
  Keeps-invalidate_user id = Keeps_of_same _ λ w. ground arith

pub ruleset cache_rules =
    (Keeps-get, Keeps-set, Keeps-unlink, Keeps-get_by_mapper, Keeps-invalidate_user)
