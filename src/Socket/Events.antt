-- ===== src/Socket/Events.antt =====
-- socket.c, the events that go to the plugin: `send_plugin_event` and `send_slot`.
use input.Base.{
  ltb, ◌==◌, if◌then◌else◌, ◌>>=◌, ℤ, pos, negsuc, eqb_ℤ, Event, ev_syn, syn_dropped, ℕ, ◌-◌, ◌%◌,
  ◌^◌, Bool, true, false, not, Option, some,
}
use input.Socket.{EventRecord, magic_word}
use input.Socket.Sending.{Plugin, is_empty, send_to_plugin}
use input.Socket.Devices.{
  ev_dev, dev_set, dev_reset, all_devices, dev_record, flush_queued_dev_events,
}

abbrev pub ev_vm : ℕ
ev_vm = 7

abbrev pub vm_send_to : ℕ
vm_send_to = 1

abbrev pub vm_take_from : ℕ
vm_take_from = 2

abbrev pub vm_error : ℕ
vm_error = 3

abbrev pub e_bad_domain : ℕ
e_bad_domain = 1

abbrev pub e_bad_code : ℕ
e_bad_code = 2

-- An `int` in the 32 bits of a record's value, and back.
abbrev pub to_word : ℤ → ℕ
to_word (pos n) = n % 2 ^ 32
to_word (negsuc n) = 2 ^ 32 - 1 - n % 2 ^ 32

abbrev pub of_word : ℕ → ℤ
of_word w = if ltb w (2 ^ 31) then pos w else negsuc (2 ^ 32 - 1 - w)

abbrev pub record_of : ℕ → ℕ → ℕ → EventRecord
record_of t c v = record { magic = magic_word; itype = t; icode = c; ivalue = v }

abbrev pub event_record : Event → EventRecord
event_record e = record_of (e.type % 2 ^ 16) (e.code % 2 ^ 16) (to_word e.value)

abbrev pub dev_record_at : ℤ → EventRecord
dev_record_at slot = record_of ev_dev dev_set (to_word slot)

abbrev pub dropped_record : EventRecord
dropped_record = record_of ev_syn syn_dropped 0

-- `plug->dropped = !send_to_plugin(plug, SYN_DROPPED)`, if it is due.
abbrev pub tell_if : Bool → Plugin → Option Plugin
tell_if true p = send_to_plugin dropped_record p >>= λ r. some (record r.1 { dropped = not r.0 })
tell_if false p = some p

unfoldable pub tell_dropped : Plugin → Option Plugin
tell_dropped p = tell_if p.dropped p

abbrev pub slot_sent : ℤ → Bool × Plugin → Plugin
slot_sent slot (true, p) = record p { slot = slot; dropped = p.slot_dropped; slot_dropped = false }
slot_sent slot (false, p) = record p { slot_dropped = true }

abbrev pub slot_unless : Bool → ℤ → Plugin → Option Plugin
slot_unless true slot p = some (record p { slot_dropped = true })
slot_unless false slot p = send_to_plugin (dev_record_at slot) p >>= λ r. some (slot_sent slot r)

unfoldable pub send_slot : ℤ → Plugin → Option Plugin
unfolding tell_dropped
send_slot slot p = tell_dropped p >>= λ q. slot_unless q.dropped slot q

-- The label `cantsend`.
abbrev pub cant_send : ℤ → Plugin → Plugin
cant_send slot p =
    if eqb_ℤ p.slot slot then record p { dropped = true } else record p { slot_dropped = true }

-- A step of `send_plugin_event` that may go to `cantsend`: whether to go on.
abbrev pub error_sent : Bool × Plugin → Bool × Plugin
error_sent (true, p) = (true, record p { error = 0 })
error_sent (false, p) = (false, p)

abbrev pub error_unless : Bool → Plugin → Option (Bool × Plugin)
error_unless true p = some (true, p)
error_unless false p =
    send_to_plugin (record_of ev_vm vm_error p.error) p >>= λ r. some (error_sent r)

unfoldable pub send_pending_error : Plugin → Option (Bool × Plugin)
send_pending_error p = error_unless (p.error == 0) p

abbrev pub reset_sent : Bool × Plugin → Bool × Plugin
reset_sent (true, p) = (true, record p { resetall = false })
reset_sent (false, p) = (false, p)

abbrev pub reset_if : Bool → Plugin → Option (Bool × Plugin)
reset_if true p = send_to_plugin (dev_record dev_reset all_devices) p >>= λ r. some (reset_sent r)
reset_if false p = some (true, p)

unfoldable pub send_reset_all : Plugin → Option (Bool × Plugin)
send_reset_all p = reset_if p.resetall p

unfoldable pub flush_if_any : Plugin → Option (Bool × Plugin)
flush_if_any p = if is_empty p.dev_events then some (true, p) else flush_queued_dev_events p

abbrev pub go_on : (Plugin → Option (Bool × Plugin)) → Bool × Plugin → Option (Bool × Plugin)
go_on f (true, p) = f p
go_on f (false, p) = some (false, p)

infixl 5 ◌then_on◌
abbrev pub ◌then_on◌ :
    Option (Bool × Plugin) → (Plugin → Option (Bool × Plugin)) → Option (Bool × Plugin)
m then_on f = m >>= go_on f

-- The event itself, after the slot: `send_slot` has no result that is looked at.
abbrev pub event_sent : Bool × Plugin → Plugin
event_sent (true, p) = p
event_sent (false, p) = record p { dropped = true }

abbrev pub event_unless : Bool → Event → Plugin → Option Plugin
event_unless true e p = some p
event_unless false e p = send_to_plugin (event_record e) p >>= λ r. some (event_sent r)

unfoldable pub send_last : Event → Plugin → Option Plugin
unfolding tell_dropped
send_last e p = tell_dropped p >>= λ q. event_unless q.dropped e q

abbrev pub slot_if_other : Bool → ℤ → Plugin → Option Plugin
slot_if_other true slot p = some p
slot_if_other false slot p = send_slot slot p

abbrev pub with_event : ℤ → Event → Bool × Plugin → Option Plugin
with_event slot e (true, p) = slot_if_other (eqb_ℤ p.slot slot) slot p >>= send_last e
with_event slot e (false, p) = some (cant_send slot p)

unfoldable pub send_plugin_event : ℤ → Event → Plugin → Option Plugin
unfolding send_pending_error send_reset_all flush_if_any send_slot send_last
send_plugin_event slot e p =
    (send_pending_error p then_on send_reset_all then_on flush_if_any) >>= with_event slot e
