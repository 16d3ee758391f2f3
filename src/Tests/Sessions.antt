-- ===== src/Tests/Sessions.antt =====
-- Sessions of the small world.
use tesseract_go_api.Prelude.{
  String, true, false, not, none, some, ◌≡◌, ◌≤◌, ◌<◌, ◌+◌, ◌*◌, refl, arith, any, find?, filter,
  ◌&&◌, ◌⊎◌,
}
use tesseract_go_api.Response.{
  sentinel, wrapped, token_consumed, token_grace_period, refresh_session, answered, status, no_rows,
  user_not_found,
}
use tesseract_go_api.Response.Statuses.{status-range}
use tesseract_go_api.Exec.{ok, err}
use tesseract_go_api.Store.{seconds, RefreshToken, World}
use tesseract_go_api.Tokens.Queries.{has_hash, of_user}
use tesseract_go_api.Tokens.Manager.{create_access, generate_refresh_string}
use tesseract_go_api.Tokens.Repository
use tesseract_go_api.Tokens.Sessions.{delete_other_for_user-keeps}
use tesseract_go_api.Auth.Service
use tesseract_go_api.Auth.Rotation.{refresh_session-rotates, rotated, successor}
use tesseract_go_api.Auth.Reuse.{
  refresh_session-again, refresh_session-after_grace, exchange_race, without_user,
}
use tesseract_go_api.Users.Queries.{has_id, is_live}
use tesseract_go_api.Users.Service as Users
use tesseract_go_api.Users.Deletion.{delete-ends}
use tesseract_go_api.Tests.Fixtures.{platform, ttl, meta, user_row, token_row, at_time}

-- The world after Ann's refresh.
abbrev refreshed : World
unfolding Service.refresh_session Service.exchange Service.rotate Service.or_refused
    Service.replace_or_end
refreshed = (Service.refresh_session platform ttl "a1" meta (at_time 100)).1

refresh_runs :
    Service.refresh_session platform ttl "a1" meta (at_time 100) ≡ (ok ("sealed", "r0"), refreshed)
unfolding Service.refresh_session Service.exchange Service.rotate Service.or_refused
    Service.replace_or_end refreshed Repository.get_by_hash generate_refresh_string
    Users.get_available create_access
refresh_runs = refl

refresh_session-rotates_example :
    (t : RefreshToken) × (find? (has_hash "a1") (at_time 100).db.tokens ≡ some t)
    × (t.is_consumed ≡ false)
    × (100 ≤ t.expires_at)
    × (◌≡◌ {A = String} "r0" (platform.random_hex 0))
    × (refreshed.db.tokens
        ≡ rotated "a1" (successor platform ttl t meta (at_time 100)) 100 (at_time 100).db)
refresh_session-rotates_example =
    refresh_session-rotates platform ttl "a1" meta (at_time 100) refreshed "sealed" "r0"
      refresh_runs

-- Six seconds after Ann's refresh.
abbrev six_later : World
six_later = record refreshed { now = 6_000_100 }

refresh_session-again_example :
    ((6_000_100 < 100 + 5 * seconds)
      × (Service.refresh_session platform ttl "a1" meta six_later
          ≡ (err (sentinel token_grace_period), six_later)))
    ⊎ ((100 + 5 * seconds ≤ 6_000_100)
        × (Service.refresh_session platform ttl "a1" meta six_later
            ≡ (err (sentinel token_consumed), without_user 1 six_later))
        × (any (of_user 1) (without_user 1 six_later).db.tokens ≡ false))
unfolding refreshed Users.get_available Repository.get_by_hash generate_refresh_string
refresh_session-again_example =
    refresh_session-again platform ttl "a1" "sealed" "r0" meta meta (at_time 100) refreshed
      six_later (token_row 4 1 "a1" false none 1_000_000_000) refresh_runs refl refl refl
      (omega arith)

refresh_session-after_grace_example :
    Service.refresh_session platform ttl "a0" meta (at_time 9_000_000)
    ≡ (err (sentinel token_consumed), without_user 1 (at_time 9_000_000))
refresh_session-after_grace_example =
    refresh_session-after_grace platform ttl "a0" meta (at_time 9_000_000)
      (token_row 5 1 "a0" true (some 10) 1_000_000_000) refl refl refl (omega arith) refl

abbrev ann_row : RefreshToken
ann_row = token_row 4 1 "a1" false none 1_000_000_000

abbrev won : World
unfolding Service.exchange Service.rotate Service.or_refused Service.replace_or_end
won = (Service.exchange platform ttl "a1" ann_row meta (at_time 100)).1

exchange_runs :
    Service.exchange platform ttl "a1" ann_row meta (at_time 100) ≡ (ok ("sealed", "r0"), won)
unfolding Service.exchange Service.rotate Service.or_refused Service.replace_or_end won
    generate_refresh_string Users.get_available create_access
exchange_runs = refl

exchange_race_example :
    (Service.exchange platform ttl "a1" ann_row meta won ≡ (
      err (wrapped refresh_session (sentinel token_consumed)),
      record (without_user 1 won) { drawn = 2 },
    ))
    × (any (of_user 1) (without_user 1 won).db.tokens ≡ false)
unfolding won generate_refresh_string Users.get_available
exchange_race_example =
    exchange_race platform ttl "a1" meta meta (at_time 100) won ann_row "sealed" "r0" exchange_runs
      refl (omega arith)

abbrev others_ended : World
unfolding Repository.delete_other_for_user
others_ended = (Repository.delete_other_for_user 1 "a1" (at_time 100)).1

others_run : Repository.delete_other_for_user 1 "a1" (at_time 100) ≡ (ok tt, others_ended)
unfolding Repository.delete_other_for_user
others_run = refl

delete_other_for_user-keeps_example :
    (filter (of_user 1) others_ended.db.tokens
      ≡ filter (λ t. of_user 1 t && has_hash "a1" t) (at_time 100).db.tokens)
    × (filter (λ t. not (of_user 1 t)) others_ended.db.tokens
        ≡ filter (λ t. not (of_user 1 t)) (at_time 100).db.tokens)
delete_other_for_user-keeps_example =
    delete_other_for_user-keeps 1 "a1" (at_time 100) others_ended others_run

delete-ends_example :
    ((Users.delete 2 (at_time 100)).0 ≡ ok 2)
    × (any (λ x. has_id 2 x && is_live x) (Users.delete 2 (at_time 100)).1.db.users ≡ false)
    × (any (of_user 2) (Users.delete 2 (at_time 100)).1.db.tokens ≡ false)
delete-ends_example = delete-ends 2 (at_time 100) (user_row 2 "bob@x" "bob" none) refl refl

status-range_example :
    ((answered (wrapped user_not_found no_rows) ≡ token_grace_period)
      × (status (wrapped user_not_found no_rows) ≡ 200))
    ⊎ ((400 ≤ status (wrapped user_not_found no_rows))
        × (status (wrapped user_not_found no_rows) ≤ 500))
status-range_example = status-range (wrapped user_not_found no_rows)
