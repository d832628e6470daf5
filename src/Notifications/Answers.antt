-- ===== src/Notifications/Answers.antt =====
-- Expo's answers, and the outcomes of the entries (src/jobs/push-dispatch.job.ts: send).
use smartpig_backend.Common.{
  ℕ, ◌≡◌, refl, sym, ap, ◌∙◌, Bool, true, false, ◌&&◌, List, [], ◌∷◌, ◌++◌, map, ◌==◌, arith, any?,
  take, length, All, Any, Bool-cases, inl, inr, ==_iff,
}
use smartpig_backend.Notifications.Rows.{PushNotification, PushDevice, PushError}
use smartpig_backend.Notifications.Target.{is_empty}
use smartpig_backend.Notifications.Dispatch.{
  ExpoClient, PushOutcome, PushAddress, PushMessage, TicketAnswer, SendAnswer, SendState,
  is_unaddressed, own_devices, messages_of, message_to, update_outcome, fail_chunk, take_tickets,
  take_answer, send_chunks, open_outcomes, drop,
}
use smartpig_backend.Notifications.Claims.{All-map}
use smartpig_backend.Notifications.Ending.{any?-kept}

-- The outcome of an entry stays there while the answers come in.
abbrev Awaits : ℕ → SendState → Type 0
Awaits id st = any? (λ o. o.notification_id == id) st.outcomes ≡ true

update_outcome-Awaits :
    (id other : ℕ) (f : PushOutcome → PushOutcome) (st : SendState)
    → ((o : PushOutcome) → (f o).notification_id ≡ o.notification_id)
    → Awaits id st
    → Awaits id (update_outcome other f st)
update_outcome-Awaits id other f st keeps h =
    any?-kept _ _ f st.outcomes (λ o. ap (λ i. i == id) (keeps o)) ∙ h

module _ (id : ℕ) where
  take_tickets-Awaits :
      (xs : List PushAddress) (ts : List TicketAnswer) (st : SendState)
      → Awaits id st
      → Awaits id (take_tickets xs ts st)
  take_tickets-Awaits [] [] st h = h
  take_tickets-Awaits [] (t ∷ ts) st h = h
  take_tickets-Awaits (a ∷ xs) [] st h = h
  take_tickets-Awaits (a ∷ xs) (TicketAnswer.accepted t ∷ ts) st h =
      take_tickets-Awaits xs ts _ (update_outcome-Awaits id a.notification_id _ st (λ o. refl) h)
  take_tickets-Awaits (a ∷ xs) (TicketAnswer.rejected code message ∷ ts) st h =
      take_tickets-Awaits xs ts _ (update_outcome-Awaits id a.notification_id _ st (λ o. refl) h)

  fail_chunk-Awaits :
      (e : PushError) (retryable : Bool) (xs : List PushAddress) (st : SendState)
      → Awaits id st
      → Awaits id (fail_chunk e retryable xs st)
  fail_chunk-Awaits e retryable [] st h = h
  fail_chunk-Awaits e retryable (a ∷ xs) st h =
      fail_chunk-Awaits e retryable xs _
        (update_outcome-Awaits id a.notification_id _ st (λ o. refl) h)

  take_answer-Awaits :
      (xs : List PushAddress) (answer : SendAnswer) (st : SendState)
      → Awaits id st
      → Awaits id (take_answer xs answer st)
  take_answer-Awaits xs (SendAnswer.answered ts) st h = take_tickets-Awaits xs ts st h
  take_answer-Awaits xs (SendAnswer.refused code message) st h = fail_chunk-Awaits _ _ xs st h

  pub send_chunks-Awaits :
      (expo : ExpoClient) (chunks : List (List PushMessage)) (xs : List PushAddress)
      (st : SendState)
      → Awaits id st
      → Awaits id (send_chunks expo chunks xs st)
  send_chunks-Awaits expo [] xs st h = h
  send_chunks-Awaits expo (chunk ∷ chunks) xs st h =
      send_chunks-Awaits expo chunks (drop (length chunk) xs) _
        (take_answer-Awaits (take (length chunk) xs) (expo.send chunk) st h)

pub opened_for :
    (devices : List PushDevice) (ns : List PushNotification)
    → All
        (λ c.
          is_unaddressed devices c ≡ false
          → any? (λ o. o.notification_id == c.id) (open_outcomes devices ns) ≡ true)
        ns
opened_for devices [] = tt
opened_for devices (n ∷ ns) = elim (Bool-cases (is_unaddressed devices n)) [
  | inl none_own ↦ (
    (λ h. absurd (cc)),
    All-map _ _ ns (λ c k u. ground (arith, k u, none_own)) (opened_for devices ns),
  )
  | inr some_own ↦ rw some_own (
    (λ h. ground (arith, ==_iff n.id n.id)),
    All-map _ _ ns (λ c k u. ground (arith, k u)) (opened_for devices ns),
  )
]

is_empty-append : {A : Type 0} (xs ys : List A) → is_empty (xs ++ ys) ≡ (is_empty xs && is_empty ys)
is_empty-append [] ys = refl
is_empty-append (x ∷ xs) ys = refl

is_empty-map : {A B : Type 0} (f : A → B) (xs : List A) → is_empty (map f xs) ≡ is_empty xs
is_empty-map f [] = refl
is_empty-map f (x ∷ xs) = refl

both_true : (p q : Bool) → (p && q) ≡ true → (p ≡ true) × (q ≡ true)
both_true p q h = (ground arith, ground arith)

-- No message is built: nothing is addressed.
pub none_addressed :
    (devices : List PushDevice) (ns : List PushNotification) (k : ℕ)
    → is_empty (messages_of devices ns) ≡ true
    → Any (λ c. (k ≡ c.id) × (is_unaddressed devices c ≡ false)) ns
    → ⊥
unfolding is_unaddressed
none_addressed devices [] k h a = a
none_addressed devices (n ∷ ns) k h (inl e) =
    let parts =
      sym (is_empty-append (map (message_to n) (own_devices devices n)) (messages_of devices ns))
      ∙ h in
    let none_own =
      sym (is_empty-map (message_to n) (own_devices devices n)) ∙ (both_true _ _ parts).0 in
    absurd (cc)
none_addressed devices (n ∷ ns) k h (inr a) =
    let parts =
      sym (is_empty-append (map (message_to n) (own_devices devices n)) (messages_of devices ns))
      ∙ h in
    none_addressed devices ns k (both_true _ _ parts).1 a
