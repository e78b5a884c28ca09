-- ===== src/Superhid.antt =====
-- superhidplugin.c: the program that turns the events of a touch screen, which it gets from the socket of
-- the input server, into reports for the USB gadget of a guest. Its statics are the record `Digitizer`;
-- `none` stands for an access outside the array of reports. `process_relative_event`, whose call is
-- commented out, is left out, as are the socket and the devices.
pub mod Table
pub mod Host
pub mod Known
pub mod Synced
use input.Socket.Devices.{ev_dev, dev_set}
use input.Socket.{EventRecord}
use input.Base.{
  ◌==◌, if◌then◌else◌, ◌>>=◌, get_elem?, set, replicate, ev_syn, ev_abs, syn_report, abs_mt_slot,
  abs_mt_position_x, abs_mt_position_y, abs_mt_tracking_id, ℕ, ◌+◌, ◌-◌, ◌*◌, ◌/◌, ◌%◌, ◌^◌, Bool,
  true, false, ◌&&◌, Option, none, some, List, [], ◌∷◌, ◌++◌,
}

-- REPORT_ID_MULTITOUCH
abbrev pub report_id_multitouch : ℕ
report_id_multitouch = 4

abbrev pub max_fingers : ℕ
max_fingers = 10

-- `struct superhid_report`
pub record SuperhidReport : Type 0 where
  pub report_id : ℕ  -- uint8
  pub misc : ℕ  -- uint8
  pub x : ℕ  -- uint16
  pub y : ℕ  -- uint16

-- The statics of `process_absolute_event` and of `process_event`.
pub record Digitizer : Type 0 where
  pub reports : List SuperhidReport
  pub finger : ℕ
  pub just_syned : Bool
  pub current_dev : ℕ

-- IN_RANGE, DATA_VALID and the number of the finger.
abbrev pub first_misc : ℕ → ℕ
first_misc i = 6 + i * 8 % 256

abbrev pub first_report : ℕ → SuperhidReport
first_report i = record { report_id = report_id_multitouch; misc = first_misc i; x = 0; y = 0 }

-- The loop that sets up the reports from `i` on; what it does not set stays.
abbrev pub set_up : ℕ → List SuperhidReport → List SuperhidReport
set_up i [] = []
set_up i (r ∷ rs) =
    record r { report_id = report_id_multitouch; misc = first_misc i } ∷ set_up (i + 1) rs

abbrev pub blank_report : SuperhidReport
blank_report = record { report_id = 0; misc = 0; x = 0; y = 0 }

abbrev pub digitizer_init : Digitizer
digitizer_init = record {
  reports = replicate max_fingers blank_report;
  finger = 0;
  just_syned = false;
  current_dev = 0;
}

-- TIP_SWITCH, the lowest bit, off and on.
abbrev pub tip_off : SuperhidReport → SuperhidReport
tip_off r = record r { misc = r.misc - r.misc % 2 }

abbrev pub tip_on : SuperhidReport → SuperhidReport
tip_on r = record r { misc = r.misc - r.misc % 2 + 1 }

-- What a report becomes by an event.
abbrev pub contact_moved : EventRecord → SuperhidReport → SuperhidReport
contact_moved e r =
    if e.icode == abs_mt_position_x
    then record r { x = e.ivalue / 8 % 2 ^ 16 }
    else if e.icode == abs_mt_position_y
    then record r { y = e.ivalue / 8 % 2 ^ 16 }
    else if e.icode == abs_mt_tracking_id
    then (if e.ivalue == 0xFFFFFFFF then tip_off r else tip_on r)
    else r

-- The reports written, and the state after it.
abbrev pub Written : Type 0
Written = List SuperhidReport × Digitizer

abbrev pub to_slot : ℕ → SuperhidReport → Digitizer → Written
to_slot n r p = (if p.just_syned then [] else r ∷ [], record p { finger = n; just_syned = false })

-- The events by what they do.
pub data Kind : Type 0 where
  slot contact sync other : Kind

abbrev pub kind_of : EventRecord → Kind
kind_of e =
    if e.itype == ev_abs
    then (if e.icode == abs_mt_slot then slot else contact)
    else if e.itype == ev_syn && e.icode == syn_report
    then sync
    else other

-- `r` is the report of the finger.
abbrev pub on_event : Kind → EventRecord → SuperhidReport → Digitizer → Written
on_event slot e r p = to_slot e.ivalue r p
on_event contact e r p =
    ([], record p { reports = set p.reports p.finger (contact_moved e r); just_syned = false })
on_event sync e r p = (r ∷ [], record p { just_syned = true })
on_event other e r p = ([], record p { just_syned = false })

abbrev pub once_set_up : Digitizer → Digitizer
once_set_up p = record p { reports = set_up 0 p.reports }

-- The reports are set up on the first call.
abbrev pub set_up_if : Option SuperhidReport → Digitizer → Option Digitizer
set_up_if none p = none
set_up_if (some r) p = some (if r.report_id == 0 then once_set_up p else p)

unfoldable pub process_absolute_event : EventRecord → Digitizer → Option Written
process_absolute_event e p = do
  p' ← set_up_if (get_elem? p.reports p.finger) p
  r ← get_elem? p'.reports p'.finger
  some (on_event (kind_of e) e r p')

abbrev pub note_dev : EventRecord → Digitizer → Digitizer
note_dev e p =
    if e.itype == ev_dev && e.icode == dev_set then record p { current_dev = e.ivalue } else p

-- Device 6 is the touch screen.
abbrev pub for_dev : EventRecord → Digitizer → Option Written
for_dev e p = if p.current_dev == 6 then process_absolute_event e p else some ([], p)

unfoldable pub process_event : EventRecord → Digitizer → Option Written
process_event e p = for_dev e (note_dev e p)

-- The loop of `recv_callback` over the records that `findnext` finds.
unfoldable pub process_all : List EventRecord → Digitizer → Option Written
process_all [] p = some ([], p)
process_all (e ∷ es) p = do
  (rs, p') ← process_event e p
  (rs', p'') ← process_all es p'
  some (rs ++ rs', p'')
