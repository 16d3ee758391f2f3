-- ===== src/Cache/Laws.antt =====
-- Keys and what they hold, as a dictionary.
use tesseract_go_api.Prelude.{
  ◌≡◌, Bool, true, false, ◌&&◌, ◌↔◌, [], ◌∷◌, Option, none, some, arith, ◌==◌, str_eq, eq_iff,
  if◌then◌else◌,
}
use tesseract_go_api.Store.{
  Key, user_entity, user_mapper, album_entity, album_mapper, direct_mapper, CacheValue, Cache,
}

abbrev pub key_eq : Key → Key → Bool
key_eq (user_entity a) (user_entity b) = a == b
key_eq (user_mapper s) (user_mapper t) = str_eq s t
key_eq (album_entity a) (album_entity b) = a == b
key_eq (album_mapper a s) (album_mapper b t) = a == b && str_eq s t
key_eq (direct_mapper a) (direct_mapper b) = a == b
key_eq _ _ = false

pub key_eq_iff : (k j : Key) → (key_eq k j ≡ true) ↔ (k ≡ j)
key_eq_iff (user_entity a) (user_entity b) = ground arith
key_eq_iff (user_mapper s) (user_mapper t) = ground (arith, eq_iff s t)
key_eq_iff (album_entity a) (album_entity b) = ground arith
key_eq_iff (album_mapper a s) (album_mapper b t) = ground (arith, eq_iff s t)
key_eq_iff (direct_mapper a) (direct_mapper b) = ground arith
key_eq_iff _ _ = ground arith

unfoldable pub lookup : Key → Cache → Option CacheValue
lookup k [] = none
lookup k ((j, v) ∷ c) = if key_eq j k then some v else lookup k c

unfoldable pub without : Key → Cache → Cache
without k [] = []
without k ((j, v) ∷ c) = let rest = without k c in if key_eq j k then rest else (j, v) ∷ rest

unfoldable pub store : Key → CacheValue → Cache → Cache
unfolding without
store k v c = (k, v) ∷ without k c

pub lookup-without :
    (k j : Key) (c : Cache) → lookup j (without k c) ≡ (if key_eq k j then none else lookup j c)
unfolding lookup without
lookup-without k j [] = ground arith
lookup-without k j ((i, v) ∷ c) =
    ground (arith, lookup-without k j c, key_eq_iff i k, key_eq_iff i j, key_eq_iff k j)

pub lookup-store :
    (k j : Key) (v : CacheValue) (c : Cache)
    → lookup j (store k v c) ≡ (if key_eq k j then some v else lookup j c)
unfolding lookup store
lookup-store k j v c = ground (arith, lookup-without k j c)
