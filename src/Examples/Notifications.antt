-- ===== src/Examples/Notifications.antt =====
-- The laws of the push notifications, on two entries of the outbox.
use smartpig_backend.Common.{◌≡◌, refl, true, false, none, some, [], ◌∷◌, arith, find?, All}
use smartpig_backend.Notifications.Rows.{
  NotificationStatus, AppPlatform, PushNotification, PushError, PushDb,
}
use smartpig_backend.Notifications.Target.{parse_version, compare_versions}
use smartpig_backend.Notifications.Precedence.{IsRanked}
use smartpig_backend.Notifications.Ordering.{compare_versions-IsRanked}
use smartpig_backend.Notifications.Dispatch.{ExpoClient, SendAnswer, has_id, is_sending, dispatch}
use smartpig_backend.Notifications.Finality.{dispatch-IsKept}
use smartpig_backend.Notifications.Attempts.{AreBounded, dispatch-AreBounded}
use smartpig_backend.Notifications.Progress.{dispatch-ends}

-- Every request is throttled.
abbrev throttled : ExpoClient
throttled = record {
  chunk_messages = λ messages. messages ∷ [];
  send = λ messages. SendAnswer.refused (some 429) "Too many requests";
}

abbrev waiting : PushNotification
waiting = record {
  id = 1;
  user_id = 1;
  target = none;
  status = NotificationStatus.pending;
  tickets = [];
  error = [];
  attempts = 2;
  sent_at = none;
  created_at = 100;
  updated_at = 100;
}

abbrev ended : PushNotification
ended = record waiting {
  id = 2;
  status = NotificationStatus.failed;
  error = PushError.interrupted ∷ [];
  attempts = 3;
}

abbrev db : PushDb
db = record {
  notifications = waiting ∷ ended ∷ [];
  devices =
      record {
        id = 5;
        user_id = 1;
        token = "ExponentPushToken[a]";
        platform = AppPlatform.ios;
        app_version = some "1.0.12";
        disabled_at = none;
      }
      ∷ [];
  paused_until = 0;
}

dispatch-IsKept_example :
    find? (has_id 2) (dispatch throttled true 1000 db).1.notifications ≡ some ended
dispatch-IsKept_example =
    dispatch-IsKept 1000 2 ended throttled true db
      (((λ e. absurd (omega (arith, e))), tt), (tt, tt)) refl refl

dispatch-AreBounded_example : AreBounded (dispatch throttled true 1000 db).1
dispatch-AreBounded_example =
    dispatch-AreBounded 1000 throttled true db (((λ e. absurd (omega (arith, e))), tt), (tt, tt))
      ((omega arith, λ p. omega arith), ((omega arith, λ p. absurd (cc)), tt))

dispatch-ends_example :
    All (λ n. is_sending n ≡ false) (dispatch throttled true 1000 db).1.notifications
dispatch-ends_example =
    dispatch-ends throttled 1000 db refl ((λ s. absurd (cc)), ((λ s. absurd (cc)), tt))

compare_versions-IsRanked_example :
    IsRanked
      (parse_version "1.0.12")
      (parse_version "1.0.100-rc.1")
      (compare_versions "1.0.12" "1.0.100-rc.1")
      (compare_versions "1.0.100-rc.1" "1.0.12")
compare_versions-IsRanked_example = compare_versions-IsRanked "1.0.12" "1.0.100-rc.1"
