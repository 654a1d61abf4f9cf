-- ===== src/WakeLock/Tests.antt =====
-- A host with one lock that has run out (wakelock.py).
use basecradle_router.Base.{◌≡◌, ◌↔◌, refl, true, some, [], ◌∷◌}
use basecradle_router.Models.{has_slash}
use basecradle_router.Base.Result.{ok, err}
use basecradle_router.WakeLock.{
  WakeLockDecision, overflow_error, Host, content, file_not_found, json_text, json_object,
  json_decode_error, aware, should_wake, unreadable, inspect,
}
use basecradle_router.WakeLock.Verdict.{
  Wakes, Overflows, is_let_through, should_wake_iff, inspect-slash,
}

abbrev host : Host
host = record {
  lock_dir = "/run/locks";
  read = λ folder file. content "{}";
  loads = λ raw. json_object (("expires_at", json_text "2026-01-01T00:00:00Z") ∷ []);
  fromisoformat = λ text. some (aware 40);
  isoformat = λ t. "2026-01-01T00:00:00+00:00";
  repr = λ slug. slug;
  now = 41;
}

should_wake_iff_example :
    ((is_let_through (inspect host "nova") ≡ true) ↔ Wakes host "nova")
    × ((inspect host "nova" ≡ err overflow_error) ↔ Overflows host "nova")
should_wake_iff_example = should_wake_iff host "nova"

inspect-slash_example :
    (inspect
        (record host {
          read = λ folder file. file_not_found;
          loads = λ raw. json_decode_error "bad";
          now = 3;
        })
        "../etc/x"
      ≡ inspect host "../etc/x")
    × ((d : WakeLockDecision) × (inspect host "../etc/x" ≡ ok d)
        × (d.state ≡ unreadable)
        × (d.reason ≡ "unsafe-slug")
        × (should_wake d ≡ true))
unfolding has_slash
inspect-slash_example =
    inspect-slash host (λ folder file. file_not_found) (λ raw. json_decode_error "bad") 3 "../etc/x"
      refl
