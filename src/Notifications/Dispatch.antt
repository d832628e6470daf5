-- ===== src/Notifications/Dispatch.antt =====
-- The job that sends the outbox (src/jobs/push-dispatch.job.ts). Expo's client is a parameter. One
-- round runs at a time in an instance, so the flag `running` is left out.
use smartpig_backend.Common.{
  ℕ, zero, suc, ◌+◌, Bool, true, false, ◌&&◌, ◌||◌, not, Option, none, some, List, [], ◌∷◌, ◌++◌,
  String, ◌==◌, ltb, leb, if◌then◌else◌, length, find?, filter, any?, take, map, update_where,
  includes, same_string, get_or_else, ok, Action, pure, gets, modify, or_throw, catch, ◌>>=◌, ◌>>◌,
}
use smartpig_backend.Intents.Rows.{record_not_found}
use smartpig_backend.Notifications.Rows.{
  NotificationStatus, PushNotification, PushDevice, Ticket, PushError, PushDb,
}
use smartpig_backend.Notifications.Target.{device_matches_target, is_empty}

abbrev pub batch_size : ℕ
batch_size = 100

abbrev pub max_attempts : ℕ
max_attempts = 3

abbrev pub stale_sending_ms : ℕ
stale_sending_ms = 300000

abbrev pub rate_limit_backoff_ms : ℕ
rate_limit_backoff_ms = 60000

-- A message: its token, and the entry that it shows. The texts are left out.
pub record PushMessage : Type 0 where
  pub to : String
  pub notification_id : ℕ

pub record PushAddress : Type 0 where
  pub notification_id : ℕ
  pub device_id : ℕ

pub data TicketAnswer : Type 0 where
  accepted : String → TicketAnswer
  rejected : Option String → String → TicketAnswer

-- What the request answers: tickets, or an error with its status code and its message.
pub data SendAnswer : Type 0 where
  answered : List TicketAnswer → SendAnswer
  refused : Option ℕ → String → SendAnswer

pub record ExpoClient : Type 0 where
  pub chunk_messages : List PushMessage → List (List PushMessage)
  pub send : List PushMessage → SendAnswer

pub record PushOutcome : Type 0 where
  pub notification_id : ℕ
  pub tickets : List Ticket
  pub errors : List PushError
  pub retryable : Bool

-- The variables of `send`.
pub record SendState : Type 0 where
  pub outcomes : List PushOutcome
  pub not_registered : List ℕ
  pub rate_limited : Bool

abbrev pub is_pending : PushNotification → Bool
is_pending n = elim n.status [ NotificationStatus.pending ↦ true | _ ↦ false ]

abbrev pub is_sending : PushNotification → Bool
is_sending n = elim n.status [ NotificationStatus.sending ↦ true | _ ↦ false ]

abbrev pub has_id : ℕ → PushNotification → Bool
has_id id n = n.id == id

abbrev pub is_stale : ℕ → PushNotification → Bool
is_stale now n = is_sending n && ltb (n.updated_at + stale_sending_ms) now

abbrev pub interrupt : ℕ → PushNotification → PushNotification
interrupt now n = record n {
  status = NotificationStatus.failed;
  error = PushError.interrupted ∷ [];
  updated_at = now;
}

-- `orderBy: { createdAt: 'asc' }`
abbrev pub insert_by_created : PushNotification → List PushNotification → List PushNotification
insert_by_created n [] = n ∷ []
insert_by_created n (m ∷ ms) =
    let rest = insert_by_created n ms in
    if ltb m.created_at n.created_at then m ∷ rest else n ∷ m ∷ ms

abbrev pub sort_by_created : List PushNotification → List PushNotification
sort_by_created [] = []
sort_by_created (n ∷ ns) = insert_by_created n (sort_by_created ns)

abbrev pub is_claimable : ℕ → PushNotification → Bool
is_claimable id n = n.id == id && is_pending n

abbrev pub claim : ℕ → PushNotification → PushNotification
claim now n = record n {
  status = NotificationStatus.sending;
  attempts = n.attempts + 1;
  updated_at = now;
}

abbrev pub set_notifications : List PushNotification → PushDb → PushDb
set_notifications rows db = record db { notifications = rows }

-- The loop of `claimBatch`: the entries that this round claimed, and the table.
unfoldable pub claim_each :
    ℕ
    → List PushNotification
    → List PushNotification
    → List PushNotification × List PushNotification
claim_each now [] rows = ([], rows)
claim_each now (r ∷ rs) rows =
    let (claimed, after) = claim_each now rs (update_where (is_claimable r.id) (claim now) rows) in
    (if any? (is_claimable r.id) rows then claim now r ∷ claimed else claimed, after)

unfoldable pub find_candidates : List PushNotification → List PushNotification
find_candidates rows = take batch_size (sort_by_created (filter is_pending rows))

unfoldable pub claim_batch : ℕ → Action PushDb (List PushNotification)
claim_batch now db =
    let (claimed, after) = claim_each now (find_candidates db.notifications) db.notifications in
    (ok claimed, set_notifications after db)

unfoldable pub fail_stale_sending : ℕ → PushDb → PushDb
fail_stale_sending now db =
    set_notifications (update_where (is_stale now) (interrupt now) db.notifications) db

-- `finish`
unfoldable pub finish : ℕ → ℕ → (PushNotification → PushNotification) → Action PushDb (Unit {0})
finish now id f = do
  old ← or_throw (← gets (λ db. find? (has_id id) db.notifications)) record_not_found
  modify (λ db.
      set_notifications
        (update_where (has_id id) (λ n. record (f n) { updated_at = now }) db.notifications) db)

abbrev pub skip : PushNotification → PushNotification
skip n = record n { status = NotificationStatus.skipped; error = PushError.no_device ∷ [] }

abbrev pub is_enabled : PushDevice → Bool
is_enabled d = elim d.disabled_at [ none ↦ true | some t ↦ false ]

abbrev pub own_devices : List PushDevice → PushNotification → List PushDevice
own_devices devices n =
    filter (λ d. d.user_id == n.user_id && device_matches_target d n.target) devices

-- No device of the user is in the target.
unfoldable pub is_unaddressed : List PushDevice → PushNotification → Bool
is_unaddressed devices n = is_empty (own_devices devices n)

unfoldable pub skip_each : ℕ → List PushDevice → List PushNotification → Action PushDb (Unit {0})
skip_each now devices [] = pure tt
skip_each now devices (n ∷ ns) =
    let rest = skip_each now devices ns in
    if is_unaddressed devices n then (do finish now n.id skip; rest) else rest

abbrev pub new_outcome : PushNotification → PushOutcome
new_outcome n = record { notification_id = n.id; tickets = []; errors = []; retryable = false }

abbrev pub open_outcomes : List PushDevice → List PushNotification → List PushOutcome
open_outcomes devices ns = map new_outcome (filter (λ n. not (is_unaddressed devices n)) ns)

abbrev pub message_to : PushNotification → PushDevice → PushMessage
message_to n d = record { to = d.token; notification_id = n.id }

abbrev pub messages_of : List PushDevice → List PushNotification → List PushMessage
messages_of devices [] = []
messages_of devices (n ∷ ns) = map (message_to n) (own_devices devices n) ++ messages_of devices ns

abbrev pub addresses_of : List PushDevice → List PushNotification → List PushAddress
addresses_of devices [] = []
addresses_of devices (n ∷ ns) =
    map (λ d. record { notification_id = n.id; device_id = d.id }) (own_devices devices n)
    ++ addresses_of devices ns

abbrev pub drop : ℕ → List PushAddress → List PushAddress
drop n [] = []
drop n (a ∷ xs) = elim n [ zero ↦ a ∷ xs | suc m ↦ drop m xs ]

abbrev pub is_retryable_http_error : Option ℕ → Bool
is_retryable_http_error none = true
is_retryable_http_error (some s) = s == 429 || leb 500 s

abbrev is_too_many : Option ℕ → Bool
is_too_many none = false
is_too_many (some s) = s == 429

abbrev pub update_outcome : ℕ → (PushOutcome → PushOutcome) → SendState → SendState
update_outcome id f st = record st {
  outcomes = update_where (λ o. o.notification_id == id) f st.outcomes;
}

abbrev pub add_error : PushError → Bool → PushOutcome → PushOutcome
add_error e retryable o = record o {
  errors = o.errors ++ (e ∷ []);
  retryable = o.retryable || retryable;
}

abbrev pub add_ticket : Ticket → PushOutcome → PushOutcome
add_ticket t o = record o { tickets = o.tickets ++ (t ∷ []) }

-- The catch around the request of a chunk.
abbrev pub fail_chunk : PushError → Bool → List PushAddress → SendState → SendState
fail_chunk e retryable [] st = st
fail_chunk e retryable (a ∷ xs) st =
    fail_chunk e retryable xs (update_outcome a.notification_id (add_error e retryable) st)

abbrev pub reject : PushAddress → String → String → SendState → SendState
reject a code message st =
    let limited = same_string code "MessageRateExceeded" in
    let failed =
      update_outcome a.notification_id (add_error (PushError.ticket code message) limited) st in
    record failed {
      not_registered =
          if same_string code "DeviceNotRegistered"
          then failed.not_registered ++ (a.device_id ∷ [])
          else failed.not_registered;
      rate_limited = failed.rate_limited || limited;
    }

abbrev pub take_ticket : PushAddress → TicketAnswer → SendState → SendState
take_ticket a (accepted id) st =
    update_outcome a.notification_id
      (add_ticket (record { ticket_id = id; device_id = a.device_id })) st
take_ticket a (rejected code message) st = reject a (get_or_else code "erro") message st

-- The tickets of a chunk, each at the address with its index.
abbrev pub take_tickets : List PushAddress → List TicketAnswer → SendState → SendState
take_tickets xs [] st = st
take_tickets [] (t ∷ ts) st = st
take_tickets (a ∷ xs) (t ∷ ts) st = take_tickets xs ts (take_ticket a t st)

abbrev pub take_answer : List PushAddress → SendAnswer → SendState → SendState
take_answer xs (answered tickets) st = take_tickets xs tickets st
take_answer xs (refused code message) st =
    let failed = fail_chunk (PushError.expo code message) (is_retryable_http_error code) xs st in
    record failed { rate_limited = failed.rate_limited || is_too_many code }

abbrev pub send_chunks :
    ExpoClient → List (List PushMessage) → List PushAddress → SendState → SendState
send_chunks expo [] xs st = st
send_chunks expo (chunk ∷ chunks) xs st =
    send_chunks expo chunks (drop (length chunk) xs)
      (take_answer (take (length chunk) xs) (expo.send chunk) st)

abbrev pub back_off : ℕ → Bool → PushDb → PushDb
back_off now limited db = record db {
  paused_until = if limited then now + rate_limit_backoff_ms else db.paused_until;
}

abbrev pub disable : ℕ → List ℕ → PushDb → PushDb
disable now ids db = record db {
  devices =
      update_where (λ d. includes d.id ids && is_enabled d)
        (λ d. record d { disabled_at = some now }) db.devices;
}

-- How an entry that was sent ends; `n` is the entry as it was claimed.
abbrev pub conclude : ℕ → PushNotification → PushOutcome → PushNotification → PushNotification
conclude now n o row =
    if not (is_empty o.tickets)
    then record row {
      status = NotificationStatus.sent;
      tickets = o.tickets;
      sent_at = some now;
      error = o.errors;
    }
    else if o.retryable && ltb n.attempts max_attempts
    then record row { status = NotificationStatus.pending; error = o.errors }
    else record row { status = NotificationStatus.failed; error = o.errors }

abbrev pub find_outcome : ℕ → List PushOutcome → Option PushOutcome
find_outcome id outcomes = find? (λ o. o.notification_id == id) outcomes

unfoldable pub finish_one : ℕ → PushNotification → Option PushOutcome → Action PushDb (Unit {0})
finish_one now n none = pure tt
finish_one now n (some o) = finish now n.id (conclude now n o)

unfoldable pub finish_each : ℕ → List PushOutcome → List PushNotification → Action PushDb (Unit {0})
finish_each now outcomes [] = pure tt
finish_each now outcomes (n ∷ ns) = do
  finish_one now n (find_outcome n.id outcomes)
  finish_each now outcomes ns

-- The devices of the claimed entries.
unfoldable pub find_devices : List PushNotification → PushDb → List PushDevice
find_devices ns db = filter (λ d. any? (λ n. n.user_id == d.user_id) ns && is_enabled d) db.devices

unfoldable pub send_all : ExpoClient → List PushDevice → List PushNotification → SendState
send_all expo devices ns =
    send_chunks expo (expo.chunk_messages (messages_of devices ns)) (addresses_of devices ns)
      (record { outcomes = open_outcomes devices ns; not_registered = []; rate_limited = false })

unfoldable pub settle_sent : ℕ → List PushNotification → SendState → Action PushDb (Unit {0})
settle_sent now ns st = do
  modify (back_off now st.rate_limited)
  modify (disable now st.not_registered)
  finish_each now st.outcomes ns

unfoldable pub send : ExpoClient → ℕ → List PushNotification → Action PushDb (Unit {0})
send expo now ns = do
  devices ← gets (find_devices ns)
  skip_each now devices ns
  if is_empty (messages_of devices ns)
      then pure tt
      else settle_sent now ns (send_all expo devices ns)

unfoldable pub dispatch_enabled : ExpoClient → ℕ → Action PushDb (Unit {0})
dispatch_enabled expo now = do
  modify (fail_stale_sending now)
  claimed ← claim_batch now
  if is_empty claimed then pure tt else send expo now claimed

unfoldable pub dispatch : ExpoClient → Bool → ℕ → Action PushDb (Unit {0})
dispatch expo enabled now db =
    if not enabled || ltb now db.paused_until
    then (ok tt, db)
    else catch (dispatch_enabled expo now) (λ e. pure tt) db
