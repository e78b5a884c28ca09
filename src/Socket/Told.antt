-- ===== src/Socket/Told.antt =====
-- An event for the plugin is the last thing it is sent, or the plugin will be told of a loss.
use input.Socket.Devices.{dev_reset, all_devices, dev_record}
use input.Socket.Sending.Records.{send_to_plugin-Steady}
use input.Base.{
  ◌==◌, Bool-cases, ℤ, eqb_ℤ, Event, ℕ, ◌≡◌, refl, ◌∙◌, ◌⊎◌, inl, inr, Bool, true, false, not,
  Option, some, List, [], ◌++◌,
}
use input.Socket.{EventRecord}
use input.Socket.Events.{
  ev_vm, vm_error, record_of, event_record, dev_record_at, dropped_record, tell_if, tell_dropped,
  slot_sent, slot_unless, send_slot, cant_send, error_sent, error_unless, send_pending_error,
  reset_sent, reset_if, send_reset_all, flush_if_any, ◌then_on◌, event_sent, event_unless,
  send_last, slot_if_other, with_event, send_plugin_event,
}
use input.Socket.Sending.{Plugin, encode, send_to_plugin}
use input.Socket.Sending.Whole.{stream, Sends, send_to_plugin-Returns}

-- No device event is queued, and the queue's memory is not freed.
abbrev pub NoQueue : Plugin → Type 0
NoQueue p = (p.freed ≡ false) × (p.dev_events ≡ [])

abbrev Goes : Option (Bool × Plugin) → Type 0
Goes o = (ok : Bool) × (q : Plugin) × (o ≡ some (ok, q)) × NoQueue q

abbrev Leads : Option Plugin → Type 0
Leads o = (q : Plugin) × (o ≡ some q) × NoQueue q

send_lem :
    (e : EventRecord) (p : Plugin)
    → NoQueue p
    → (ok : Bool) × (q : Plugin) × (send_to_plugin e p ≡ some (ok, q))
      × NoQueue q
      × Sends (encode e) p ok q
send_lem e p (live, empty) =
    let (ok, q, sent, whole) = send_to_plugin-Returns e p live in
    let (empty', live') = (send_to_plugin-Steady e p ok q sent).0 empty in
    (ok, q, sent, (live' ∙ live, empty'), whole)

tell_if-Leads : (b : Bool) (p : Plugin) → NoQueue p → Leads (tell_if b p)
tell_if-Leads true p n =
    let (ok, q, sent, n', _) = send_lem dropped_record p n in
    (record q { dropped = not ok }, rw sent refl, n')
tell_if-Leads false p n = (p, refl, n)

slot_sent-NoQueue :
    (slot : ℤ) (ok : Bool) (q : Plugin) → NoQueue q → NoQueue (slot_sent slot (ok, q))
slot_sent-NoQueue slot true q n = n
slot_sent-NoQueue slot false q n = n

slot_unless-Leads : (b : Bool) (slot : ℤ) (p : Plugin) → NoQueue p → Leads (slot_unless b slot p)
slot_unless-Leads true slot p n = (record p { slot_dropped = true }, refl, n)
slot_unless-Leads false slot p n =
    let (ok, q, sent, n', _) = send_lem (dev_record_at slot) p n in
    (slot_sent slot (ok, q), rw sent refl, slot_sent-NoQueue slot ok q n')

send_slot-Leads : (slot : ℤ) (p : Plugin) → NoQueue p → Leads (send_slot slot p)
unfolding send_slot tell_dropped
send_slot-Leads slot p n =
    let (q, told, n') = tell_if-Leads p.dropped p n in
    let (r, sent, n'') = slot_unless-Leads q.dropped slot q n' in (r, rw (told, sent) refl, n'')

error_unless-Goes : (b : Bool) (p : Plugin) → NoQueue p → Goes (error_unless b p)
error_unless-Goes true p n = (true, p, refl, n)
error_unless-Goes false p n =
    let (ok, q, sent, n', _) = send_lem (record_of ev_vm vm_error p.error) p n in
    rw sent (elim ok as (λ b. Goes (some (error_sent (b, q)))) [
      | true ↦ (true, record q { error = 0 }, refl, n')
      | false ↦ (false, q, refl, n')
    ])

reset_if-Goes : (b : Bool) (p : Plugin) → NoQueue p → Goes (reset_if b p)
reset_if-Goes true p n =
    let (ok, q, sent, n', _) = send_lem (dev_record dev_reset all_devices) p n in
    rw sent (elim ok as (λ b. Goes (some (reset_sent (b, q)))) [
      | true ↦ (true, record q { resetall = false }, refl, n')
      | false ↦ (false, q, refl, n')
    ])
reset_if-Goes false p n = (true, p, refl, n)

flush_if_any-Goes : (p : Plugin) → NoQueue p → Goes (flush_if_any p)
unfolding flush_if_any
flush_if_any-Goes p (live, empty) = (true, p, rw empty refl, (live, empty))

go_on-Goes :
    (f : Plugin → Option (Bool × Plugin)) (m : Option (Bool × Plugin))
    → ((p : Plugin) → NoQueue p → Goes (f p))
    → Goes m
    → Goes (m then_on f)
go_on-Goes f m h (true, p, e, n) = rw e (h p n)
go_on-Goes f m h (false, p, e, n) = rw e (false, p, refl, n)

-- The event is the last of the stream, or a loss is noted that the plugin will be told of.
abbrev pub Told : Event → Plugin → Type 0
Told e q =
    ((before : List ℕ) × (stream q ≡ before ++ encode (event_record e)))
    ⊎ ((q.dropped ≡ true) ⊎ (q.slot_dropped ≡ true))

abbrev Tells : Event → Option Plugin → Type 0
Tells e o = (q : Plugin) × (o ≡ some q) × (q.connected ≡ true → Told e q)

event_sent-Told :
    (e : Event) (p : Plugin) (ok : Bool) (q : Plugin)
    → Sends (encode (event_record e)) p ok q
    → (event_sent (ok, q)).connected ≡ true
    → Told e (event_sent (ok, q))
event_sent-Told e p true q (inl s) c = inl (stream p, s)
event_sent-Told e p true q (inr (s, closed)) c = cc
event_sent-Told e p false q s c = inr (inl refl)

event_unless-Tells :
    (b : Bool) (e : Event) (p : Plugin) → p.dropped ≡ b → NoQueue p → Tells e (event_unless b e p)
event_unless-Tells true e p d n = (p, refl, λ c. inr (inl d))
event_unless-Tells false e p d n =
    let (ok, q, sent, _, whole) = send_lem (event_record e) p n in
    (event_sent (ok, q), rw sent refl, event_sent-Told e p ok q whole)

send_last-Tells : (e : Event) (p : Plugin) → NoQueue p → Tells e (send_last e p)
unfolding send_last tell_dropped
send_last-Tells e p n =
    let (q, told, n') = tell_if-Leads p.dropped p n in
    rw told (event_unless-Tells q.dropped e q refl n')

slot_if_other-Leads :
    (b : Bool) (slot : ℤ) (p : Plugin) → NoQueue p → Leads (slot_if_other b slot p)
slot_if_other-Leads true slot p n = (p, refl, n)
slot_if_other-Leads false slot p n = send_slot-Leads slot p n

cant_send-Told : (slot : ℤ) (e : Event) (p : Plugin) → Told e (cant_send slot p)
cant_send-Told slot e p = elim (Bool-cases (eqb_ℤ p.slot slot)) [
  | inl y ↦ rw y (inr (inl refl))
  | inr y ↦ rw y (inr (inr refl))
]

with_event-Tells :
    (slot : ℤ) (e : Event) (ok : Bool) (p : Plugin)
    → NoQueue p
    → Tells e (with_event slot e (ok, p))
with_event-Tells slot e false p n = (cant_send slot p, refl, λ c. cant_send-Told slot e p)
with_event-Tells slot e true p n =
    let (q, sent, n') = slot_if_other-Leads (eqb_ℤ p.slot slot) slot p n in
    rw sent (send_last-Tells e q n')

-- No event is lost silently: `send_plugin_event` has a result, as long as no device event is queued, and
-- then, unless the connection is closed, the event is the last of the stream, or the plugin is marked
-- to be told of dropped events, at once or with the next change of device.
pub send_plugin_event-Told :
    (slot : ℤ) (e : Event) (p : Plugin)
    → p.freed ≡ false
    → p.dev_events ≡ []
    → (q : Plugin) × (send_plugin_event slot e p ≡ some q)
      × (q.connected ≡ true
          → ((before : List ℕ) × (stream q ≡ before ++ encode (event_record e)))
            ⊎ ((q.dropped ≡ true) ⊎ (q.slot_dropped ≡ true)))
unfolding send_plugin_event send_pending_error send_reset_all
send_plugin_event-Told slot e p live empty =
    let (ok, q, went, n) =
      go_on-Goes flush_if_any (error_unless (p.error == 0) p then_on send_reset_all)
        flush_if_any-Goes
        (go_on-Goes send_reset_all (error_unless (p.error == 0) p)
          (λ q n. reset_if-Goes q.resetall q n)
          (error_unless-Goes (p.error == 0) p (live, empty))) in
    rw went (with_event-Tells slot e ok q n)
