-- ===== src/Limiter/Tests.antt =====
-- Failed logins of "al" from the address "9" in a Redis in memory.
use rdpproxy_v.Prelude.{suc, ◌<◌, ◌≡◌, arith, ◌&&◌, ◌||◌, ltb}
use rdpproxy_v.Prelude.Text.{Text, codes, text_eq}
use rdpproxy_v.Redis.Memory.{Table, memory, nothing}
use rdpproxy_v.Limiter.{portal_limiter, uname, is_locked, record_failure, clear}
use rdpproxy_v.Limiter.Locks.{IsCounting, fails_ip, fails_user, record_failure_lem}
use rdpproxy_v.Limiter.Separated.{portal-IsSeparated}
use rdpproxy_v.Limiter.Namespaces.{clear_lem}

abbrev same : Text → Text
same t = t

abbrev nine : Text
nine = codes "9"

abbrev al : Text
al = codes "al"

no_failures :
    IsCounting memory same portal_limiter portal-IsSeparated nothing nine
      (uname memory same portal_limiter al)
no_failures = record { by_ip = tt; by_user = tt }

abbrev failed : Table
failed = record_failure memory same portal_limiter nothing nine al 0 60

record_failure_lem_example :
    (fails_ip memory same portal_limiter portal-IsSeparated failed nine
      ≡ suc (fails_ip memory same portal_limiter portal-IsSeparated nothing nine))
    × (fails_user memory same portal_limiter portal-IsSeparated failed
          (uname memory same portal_limiter al)
        ≡ suc (
            fails_user memory same portal_limiter portal-IsSeparated nothing
              (uname memory same portal_limiter al)))
    × (is_locked memory same portal_limiter failed nine (codes "bo") ≡ (
        is_locked memory same portal_limiter nothing nine (codes "bo")
        || (ltb 0 (suc (fails_ip memory same portal_limiter portal-IsSeparated nothing nine))
            && text_eq nine nine)
        || (ltb 0 (
              suc (
                fails_user memory same portal_limiter portal-IsSeparated nothing
                  (uname memory same portal_limiter al)))
            && text_eq
                (uname memory same portal_limiter al)
                (uname memory same portal_limiter (codes "bo")))))
record_failure_lem_example =
    record_failure_lem memory same portal_limiter portal-IsSeparated nothing nine al no_failures 0
      60 (omega arith) nine (codes "bo")

one_second : 0 < 1
one_second = omega arith

clear_lem_example :
    let cleared = clear memory same portal_limiter failed nine al in
    (fails_ip memory same portal_limiter portal-IsSeparated cleared nine ≡ 0)
    × (fails_user memory same portal_limiter portal-IsSeparated cleared
          (uname memory same portal_limiter al)
        ≡ 0)
    × (is_locked memory same portal_limiter cleared nine al
        ≡ is_locked memory same portal_limiter failed nine al)
clear_lem_example = clear_lem memory same portal_limiter portal-IsSeparated failed nine al nine al
