-- ===== src/Socket/Devices.antt =====
-- socket.c, what the daemon tells the plugin besides events: which devices came and went, in a queue where
-- the socket is full. `dev_events` has its last entry first here: an entry is added at the head, and
-- `flush_queued_dev_events`, which goes from the last to the first, takes them from the head.
pub mod Changed
pub mod Flushed
pub mod Queue
use input.Base.{
  ◌==◌, if◌then◌else◌, ◌>>=◌, ℕ, ◌%◌, ◌^◌, Bool, true, false, ◌&&◌, Option, none, some, List, [],
  ◌∷◌,
}
use input.Socket.{EventRecord, magic_word}
use input.Socket.Sending.{DevEvent, Plugin, is_empty, send_to_plugin}

abbrev pub ev_dev : ℕ
ev_dev = 6

abbrev pub dev_set : ℕ
dev_set = 1

abbrev pub dev_conf : ℕ
dev_conf = 2

abbrev pub dev_reset : ℕ
dev_reset = 3

-- The value for all devices.
abbrev pub all_devices : ℕ
all_devices = 0xFF

abbrev pub dev_record : ℕ → ℕ → EventRecord
dev_record code value = record {
  magic = magic_word;
  itype = ev_dev;
  icode = code;
  ivalue = value % 2 ^ 32;
}

-- The queue's memory is read or written.
abbrev pub mark_slot : Plugin → Option Plugin
mark_slot p = if p.freed then none else some p

-- The first entry of the array with this slot is changed, if there is one.
unfoldable pub change : (DevEvent → DevEvent) → ℕ → List DevEvent → Option (List DevEvent)
change f slot [] = none
change f slot (d ∷ ds) = elim (change f slot ds) [
  | some ds' ↦ some (d ∷ ds')
  | none ↦ if d.slot == slot then some (f d ∷ ds) else none
]

abbrev pub set_add : DevEvent → DevEvent
set_add d = record d { add = true }

-- The device goes: if the plugin has not been told of it, it need not be told now.
abbrev pub set_remove : DevEvent → DevEvent
set_remove d = if d.add then record d { add = false } else record d { remove = true }

abbrev pub changed_or : Option (List DevEvent) → DevEvent → List DevEvent → List DevEvent
changed_or none d ds = d ∷ ds
changed_or (some ds') d ds = ds'

abbrev pub queue_conf : ℕ → List DevEvent → List DevEvent
queue_conf slot ds =
    changed_or (change set_add slot ds) (record { slot = slot % 256; remove = false; add = true })
      ds

abbrev pub queue_reset : ℕ → List DevEvent → List DevEvent
queue_reset slot ds =
    changed_or (change set_remove slot ds)
      (record { slot = slot % 256; remove = true; add = false }) ds

abbrev on_queue : (List DevEvent → List DevEvent) → Plugin → Option Plugin
on_queue f p = (if is_empty p.dev_events then some p else mark_slot p) >>= λ q.
    some (record q { dev_events = f q.dev_events; freed = false })

unfoldable pub add_queue_dev_event_conf : ℕ → Plugin → Option Plugin
unfolding change
add_queue_dev_event_conf slot p = on_queue (queue_conf slot) p

unfoldable pub add_queue_dev_event_reset : ℕ → Plugin → Option Plugin
unfolding change
add_queue_dev_event_reset slot p =
    if slot == all_devices
    then some (record p { resetall = true })
    else on_queue (queue_reset slot) p

-- One of the two records of an entry, if it is due: whether to go on. The mark is cleared after the
-- record was sent, in memory that a failed send may have freed.
unfoldable pub flush_mark : Bool → ℕ → DevEvent → List DevEvent → Plugin → Option (Bool × Plugin)
unfolding send_to_plugin
flush_mark due code d ds p =
    if due
    then (send_to_plugin (dev_record code d.slot) p >>= λ r.
        if r.0
        then (mark_slot r.1 >>= λ q. some (true, record q { dev_events = d ∷ ds }))
        else some r)
    else some (true, p)

unfoldable pub flush_entries : List DevEvent → Plugin → Option (Bool × Plugin)
unfolding flush_mark
flush_entries [] p = some (true, p)
flush_entries (d ∷ ds) p = flush_mark d.remove dev_reset (record d { remove = false }) ds p >>= λ r.
    if r.0
    then (flush_mark d.add dev_conf (record d { remove = false; add = false }) ds r.1 >>= λ s.
        if s.0 then flush_entries ds (record s.1 { dev_events = ds }) else some s)
    else some r

unfoldable pub flush_queued_dev_events : Plugin → Option (Bool × Plugin)
unfolding flush_entries
flush_queued_dev_events p = mark_slot p >>= λ q. flush_entries q.dev_events q

-- What comes before the record in `send_plugin_dev_event`: whether it went well.
unfoldable pub clear_queue : ℕ → ℕ → Plugin → Option (Bool × Plugin)
unfolding flush_queued_dev_events
clear_queue code value p =
    if code == dev_reset && value == all_devices
    then ((if is_empty p.dev_events then some p else mark_slot p) >>= λ q.
        some (true, record q { dev_events = []; freed = false }))
    else if is_empty p.dev_events
    then some (true, p)
    else flush_queued_dev_events p

abbrev pub enqueue : ℕ → ℕ → Plugin → Option Plugin
unfolding add_queue_dev_event_conf add_queue_dev_event_reset
enqueue code value p =
    if code == dev_conf
    then add_queue_dev_event_conf value p
    else if code == dev_reset
    then add_queue_dev_event_reset value p
    else some p

-- `send_plugin_dev_event` up to the call of itself, and whether that is made. The call is made with
-- `resetall` off, so that there is no third.
unfoldable pub send_dev_event_once : ℕ → ℕ → Plugin → Option (Bool × Plugin)
unfolding clear_queue send_to_plugin enqueue
send_dev_event_once code value p =
    let r = (if p.resetall then dev_record dev_reset all_devices else dev_record code value) in
    clear_queue code value p >>= λ c. (if c.0 then send_to_plugin r c.1 else some c) >>= λ s.
    if s.0
    then some (s.1.resetall, record s.1 { resetall = false })
    else (enqueue code value s.1 >>= λ q. some (false, q))

unfoldable pub send_plugin_dev_event : ℕ → ℕ → Plugin → Option Plugin
unfolding send_dev_event_once
send_plugin_dev_event code value p = send_dev_event_once code value p >>= λ r.
    if r.0 then (send_dev_event_once code value r.1 >>= λ s. some s.1) else some r.1
