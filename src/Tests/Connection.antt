-- ===== src/Tests/Connection.antt =====
-- The theorems about the event plugin's connection and the table of domains at concrete inputs.
use input.Socket.Devices.{flush_queued_dev_events}
use input.Socket.Devices.Queue.{Change, came, went, queue_all}
use input.Socket.Told.{send_plugin_event-Told}
use input.Socket.Events.{event_record, send_plugin_event}
use input.Socket.Sending.Records.{sends}
use input.Socket.Sending.Whole.{stream, Sends, send_to_plugin-Returns}
use input.Domains.Unique.{IsUnique, connect-IsUnique}
use input.Domains.{
  Domain, inputslot_invalid, count_of, domain_with_domid, blank, domain_init, domain_new,
  none_found, domain_setup,
}
use input.Socket.Sending.Wire.{Fits, sends_received}
use input.Base.{
  pos, Event, ev_key, ℕ, ◌≡◌, refl, ◌⊎◌, Bool, true, false, none, some, List, [], ◌∷◌, ◌++◌, arith,
}
use input.Socket.{EventRecord, receive}
use input.Socket.Sending.{took, interrupted, Plugin, encode, send_to_plugin}
use input.Socket.Commands.Aim.{Aimed, send_to-Aimed}
use input.Socket.Commands.{Hub, slot_event, send_to}

-- A connection on which nothing waits: `send` takes two bytes, then is interrupted, then is full.
abbrev new_plugin : Plugin
new_plugin = record {
  connected = true;
  src = none;
  dest = none;
  slot = inputslot_invalid;
  recived_slot = pos 0;
  dropped = false;
  slot_dropped = false;
  partial = [];
  resetall = false;
  dev_events = [];
  freed = false;
  error = 0;
  wire = [];
  answers = took 1 ∷ interrupted ∷ [];
}

abbrev key_record : EventRecord
key_record = record { magic = 0xAD9CBCE9; itype = 1; icode = 30; ivalue = 1 }

send_to_plugin-Returns_example :
    (ok : Bool) × (q : Plugin) × (send_to_plugin key_record new_plugin ≡ some (ok, q))
    × Sends (encode key_record) new_plugin ok q
send_to_plugin-Returns_example = send_to_plugin-Returns key_record new_plugin refl

key_record-Fits : Fits key_record
key_record-Fits = record {
  magic_ok = refl;
  itype_ok = omega arith;
  icode_ok = omega arith;
  ivalue_ok = omega arith;
}

sends_received_example :
    (rs : List EventRecord) × (q : Plugin) × (sends (key_record ∷ []) new_plugin ≡ some (rs, q))
    × (q.connected ≡ true → q.partial ≡ [] → receive [] q.wire ≡ (rs, []))
sends_received_example =
    sends_received (key_record ∷ []) new_plugin refl refl refl (key_record-Fits, tt)

abbrev press_a : Event
press_a = record { type = ev_key; code = 30; value = pos 1 }

send_plugin_event-Told_example :
    (q : Plugin) × (send_plugin_event (pos 2) press_a new_plugin ≡ some q)
    × (q.connected ≡ true
        → ((before : List ℕ) × (stream q ≡ before ++ encode (event_record press_a)))
          ⊎ ((q.dropped ≡ true) ⊎ (q.slot_dropped ≡ true)))
send_plugin_event-Told_example = send_plugin_event-Told (pos 2) press_a new_plugin refl refl

abbrev guest : Domain
guest = record (domain_init (pos 7)) { initialised = true; client = true; last_devslot = pos 4 }

abbrev hub : Hub
hub = record { plugin = new_plugin; domains = guest ∷ []; sent = [] }

send_to-Aimed_example :
    (h' : Hub) × (send_to 7 hub ≡ some h') × Aimed 0 ((0, slot_event (pos 0)) ∷ []) hub h'
unfolding input.Domains.domain_with_domid
send_to-Aimed_example = send_to-Aimed 7 0 guest hub refl refl refl refl refl

abbrev table : List Domain
table = blank ∷ blank ∷ []

table-IsUnique : IsUnique table
unfolding input.Domains.count_of
table-IsUnique = record { domids = λ n. omega arith; slots = λ s. omega arith }

connect-IsUnique_example :
    IsUnique
      (domain_setup
        (λ n. none_found)
        (λ n. true)
        0
        (pos 7)
        none
        false
        (pos 1)
        (domain_new (pos 7) table).1).1
unfolding domain_new
connect-IsUnique_example =
    connect-IsUnique (λ n. none_found) (λ n. true) 7 none false (pos 1) table 0 table-IsUnique refl

abbrev changes : List Change
changes = went 3 ∷ came 4 ∷ came 3 ∷ went 3 ∷ []

-- The socket takes two records of twelve bytes.
abbrev waiting : Plugin
waiting = record new_plugin { dev_events = queue_all changes []; answers = took 11 ∷ took 11 ∷ [] }

abbrev all_flushed : Plugin
all_flushed = elim (flush_queued_dev_events waiting) [ none ↦ waiting | some r ↦ r.1 ]
