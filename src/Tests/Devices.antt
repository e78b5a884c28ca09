-- ===== src/Tests/Devices.antt =====
-- The theorems about the digitizer and the paravirtual keyboard at concrete inputs.
use input.Vkbd.Moves.{keys_of, tell_all, packet_end}
use input.Switcher.Landed.{switcher_switch_on_mouse-once}
use input.Switcher.Mouse.{Surroundings, switcher_switch_on_mouse}
use input.Focus.Expected.{focus_domain_gone-expected}
use input.Focus.{nslots, Timeval, FocusSlot, Incumbent, focus_expect_death, focus_domain_gone}
use input.Superhid.Known.{first_table}
use input.Superhid.Host.{learn}
use input.Socket.Devices.{ev_dev, dev_set}
use input.Vkbd.Ring.{read_at, put_all, put_all-queued, put_event-overruns}
use input.Vkbd.Packets.{value_after, motion_told, position_told, resting, tell_all-packet}
use input.Superhid.Synced.{syn_event, process_all-synced, slot_to, process_all-out_of_range}
use input.Socket.{EventRecord, magic_word}
use input.Base.{
  if◌then◌else◌, replicate, ℤ, pos, negsuc, eqb_ℤ, Event, ev_key, ev_rel, ev_abs, abs_mt_position_x,
  abs_mt_position_y, abs_mt_tracking_id, btn_left, ℕ, ◌≡◌, refl, true, false, none, some, List, [],
  ◌∷◌, ◌++◌, arith,
}
use input.Vkbd.{rel_x, key, Page, put_event}
use input.Superhid.{digitizer_init, Written, process_all}

abbrev screen_event : ℕ → ℕ → ℕ → EventRecord
screen_event t c v = record { magic = magic_word; itype = t; icode = c; ivalue = v }

-- The touch screen; finger 3 touches at (8, 16).
abbrev touch : List EventRecord
touch =
    screen_event ev_dev dev_set 6
    ∷ slot_to 3
    ∷ screen_event ev_abs abs_mt_tracking_id 5
    ∷ screen_event ev_abs abs_mt_position_x 64
    ∷ screen_event ev_abs abs_mt_position_y 128
    ∷ []

process_all-synced_example :
    (w : Written) × (process_all (touch ++ syn_event ∷ []) digitizer_init ≡ some w)
    × (learn w.0 first_table ≡ w.1.reports)
process_all-synced_example = process_all-synced touch refl refl

process_all-out_of_range_example :
    process_all (touch ++ slot_to 12 ∷ (screen_event ev_abs 53 700 ∷ [])) digitizer_init ≡ none
process_all-out_of_range_example =
    process_all-out_of_range touch 12 (screen_event ev_abs 53 700) refl refl (omega arith) refl

abbrev mouse_event : ℕ → ℕ → ℤ → Event
mouse_event t c v = record { type = t; code = c; value = v }

abbrev mouse_packet : List Event
mouse_packet =
    mouse_event ev_rel rel_x (pos 4)
    ∷ mouse_event ev_key btn_left (pos 1)
    ∷ mouse_event ev_rel rel_x (negsuc 0)
    ∷ []

tell_all-packet_example : tell_all (mouse_packet ++ packet_end ∷ []) (resting (pos 7) (pos 9)) ≡ (
  keys_of mouse_packet ++ (motion_told mouse_packet ++ position_told (pos 7) (pos 9) mouse_packet),
  resting (value_after ev_abs 0 (pos 7) mouse_packet) (value_after ev_abs 1 (pos 9) mouse_packet),
)
tell_all-packet_example = tell_all-packet mouse_packet (pos 7) (pos 9) refl

abbrev small_page : Page
small_page = record { ring = replicate 3 (key false 0); in_prod = 7 }

put_all-queued_example :
    read_at (put_all (key true 30 ∷ key false 30 ∷ []) small_page).ring 3 6 3
    ≡ some (key false 0) ∷ (some (key true 30) ∷ (some (key false 30) ∷ []))
put_all-queued_example =
    put_all-queued (key true 30 ∷ key false 30 ∷ []) small_page 6 1 refl (omega arith) (omega arith)

put_event-overruns_example :
    read_at (put_event (key true 30) small_page).ring 3 4 1 ≡ some (key true 30) ∷ []
put_event-overruns_example = put_event-overruns (key true 30) small_page 4 (omega arith) refl

abbrev pvm : Incumbent
pvm = record { slot = pos 2; is_pvm = true; uuid = none }

abbrev at_second : ℕ → Timeval
at_second n = record { tv_sec = n; tv_usec = 500 }

abbrev no_deaths : List FocusSlot
no_deaths =
    replicate nslots record { death_window = record { tv_sec = 0; tv_usec = 0 }; pvm = false }

focus_domain_gone-expected_example :
    focus_domain_gone (at_second 120) pvm (focus_expect_death (at_second 100) pvm no_deaths) ≡ false
focus_domain_gone-expected_example =
    focus_domain_gone-expected (at_second 100) (at_second 120) 2 pvm no_deaths refl (omega arith)
      refl (omega arith) (omega arith)

abbrev edges : Surroundings
edges = record {
  current = some (pos 1);
  supports_abs = true;
  disabled = false;
  left = pos 2;
  right = negsuc 0;
  surface_current = none;
  adapter = λ slot. some (
      if eqb_ℤ slot (pos 2)
      then some record { is_empty = false; has_citrix = false; has_intel = false }
      else none);
  switched = λ slot. true;
}

abbrev motion_at : ℤ → Event
motion_at v = mouse_event ev_abs 0 v

at_left : switcher_switch_on_mouse edges (motion_at (pos 0)) (pos 0) ≡ some (pos 2, pos 0x7FFE)
unfolding switcher_switch_on_mouse
at_left = refl

switcher_switch_on_mouse-once_example :
    switcher_switch_on_mouse edges (motion_at (pos 5)) (pos 0x7FFE) ≡ none
switcher_switch_on_mouse-once_example =
    switcher_switch_on_mouse-once edges edges (motion_at (pos 0)) (motion_at (pos 5)) (pos 0)
      (pos 2) (pos 0x7FFE) at_left
