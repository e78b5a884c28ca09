-- ===== src/Multitouch/Laws.antt =====
-- What holds of the multitouch filter between two events of a guest, and of the loop around it.
use native.Mathlib.Numerals.{add-three}
use input.Base.{
  pos, Event, ℕ, suc, ◌+◌, ◌≡◌, refl, ap, ◌≢◌, ◌⊎◌, true, false, some, List, ◌∷◌, arith,
}
use input.Multitouch.{
  SimPress, nope, send_sync, send_left, send_left_up, Action, discarded_event, send_event,
  events_queued, Touch, is_sync, sync_event, left_event, demultitouch, send_pv,
}

-- Between two events nothing is being drained, and a deferred press agrees with the contact.
pub record IsSettled (t : Touch) : Type 0 where
  pub idle : t.draining ≡ false
  pub down_agrees : t.deferpressed ≡ send_left → t.pressed ≡ true
  pub up_agrees : t.deferpressed ≡ send_left_up → t.pressed ≡ false

demultitouch-IsSettled :
    (e : Event) (t : Touch)
    → IsSettled t
    → (demultitouch e t).action ≢ events_queued
    → IsSettled (demultitouch e t).touch
unfolding demultitouch
demultitouch-IsSettled e t w h = ground arith

demultitouch_queued :
    (e : Event) (t : Touch)
    → t.draining ≡ false
    → (demultitouch e t).action ≡ events_queued
    → ((demultitouch e t).touch ≡ record t { draining = true; had_slot0 = false })
      × ((demultitouch e t).event ≡ e)
      × (t.deferpressed ≢ nope)
unfolding demultitouch
demultitouch_queued e t d h = ground arith

abbrev drained : Touch → Touch
drained t = record t { deferpressed = nope; draining = false }

-- What the drain of a deferred step adds to the events sent, last first.
abbrev drain_events : SimPress → List Event → List Event
drain_events nope sent = sent
drain_events send_sync sent = sync_event ∷ sent
drain_events send_left sent = sync_event ∷ left_event true ∷ sent
drain_events send_left_up sent = sync_event ∷ left_event false ∷ sent

send_pv-drain :
    (p : SimPress) (e : Event) (t : Touch) (sent : List Event) (fuel : ℕ)
    → t.draining ≡ true
    → t.deferpressed ≡ p
    → p ≢ nope
    → send_pv (suc (suc fuel)) e t sent ≡ some (drained t, drain_events p sent)
unfolding send_pv demultitouch
send_pv-drain nope e t sent fuel d h n = absurd (n refl)
send_pv-drain send_sync e t sent fuel d h n = ground arith
send_pv-drain send_left e t sent fuel d h n = ground arith
send_pv-drain send_left_up e t sent fuel d h n = ground arith

abbrev Ends : ℕ → Event → Touch → List Event → Type 0
Ends fuel e t sent =
    (t' : Touch) × (out : List Event) × (send_pv fuel e t sent ≡ some (t', out)) × IsSettled t'

send_pv_round :
    (a : Action) (e : Event) (t : Touch) (sent : List Event) (fuel : ℕ)
    → (demultitouch e t).action ≡ a
    → IsSettled t
    → Ends (suc (suc (suc fuel))) e t sent
unfolding send_pv
send_pv_round discarded_event e t sent fuel h w =
    ((demultitouch e t).touch, sent, rw (h, send_pv), demultitouch-IsSettled e t w (λ q. cc))
send_pv_round send_event e t sent fuel h w = (
  (demultitouch e t).touch,
  (demultitouch e t).event ∷ sent,
  rw (h, send_pv),
  demultitouch-IsSettled e t w (λ q. cc),
)
send_pv_round events_queued e t sent fuel h w =
    let (touched, same, deferred) = demultitouch_queued e t w.idle h in
    (
      drained (demultitouch e t).touch,
      drain_events t.deferpressed ((demultitouch e t).event ∷ sent),
      rw (h, send_pv)
          (send_pv-drain t.deferpressed _ _ _ fuel (ap (λ (s : Touch). s.draining) touched)
            (ap (λ (s : Touch). s.deferpressed) touched) deferred),
      record { idle = refl; down_agrees = λ q. cc; up_agrees = λ q. cc },
    )

-- From a settled state, for every event, the loop that feeds a paravirtual guest ends within three
-- rounds of `demultitouch` (any fuel of three or more gives its result), and leaves a settled
-- state: nothing is left draining, and a press or release that is still deferred agrees with the
-- contact that is tracked.
pub send_pv_total :
    (e : Event) (t : Touch) (sent : List Event) (fuel : ℕ)
    → IsSettled t
    → (t' : Touch) × (out : List Event) × (send_pv (fuel + 3) e t sent ≡ some (t', out))
      × IsSettled t'
send_pv_total e t sent fuel w =
    rw add-three (send_pv_round (demultitouch e t).action e t sent fuel refl w)

-- When the first contact's report ends (SYN_REPORT in slot 0) with a press or a release deferred, the
-- guest is sent exactly that sync, the left button's press or release as the contact now is, and a
-- second sync, and nothing stays deferred. Events are listed last first.
pub send_pv_flush :
    (e : Event) (t : Touch) (sent : List Event) (fuel : ℕ)
    → IsSettled t
    → is_sync e ≡ true
    → t.slot ≡ pos 0
    → (t.deferpressed ≡ send_left) ⊎ (t.deferpressed ≡ send_left_up)
    → send_pv (fuel + 3) e t sent
      ≡ some (
        record t { deferpressed = nope; had_slot0 = false },
        sync_event ∷ left_event t.pressed ∷ e ∷ sent,
      )
unfolding send_pv demultitouch
send_pv_flush e t sent fuel w sync slot0 deferred = rw add-three (ground (arith))
