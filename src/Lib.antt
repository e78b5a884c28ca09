-- ===== src/Lib.antt =====
-- The input daemon of OpenXT: it reads the machine's input devices and gives their events to the
-- guest that has the keyboard or the mouse. This library models the parts of it that decide what
-- happens to an event.
--
-- input.c takes each event to the key bindings, to the authentication window while it is shown, or
-- to a guest. Base/Codes has the event and the kernel's codes, the other files of Base what the
-- parts share: lists and integers over the native numbers, and Boolean tests. An integer of C is a ℤ
-- or, where it cannot be negative, an ℕ; the overflow of `int` is left out.
--
-- - Bindings: `input_add_binding`, `input_exec_bindings` and `check_for_force_binding` of input.c.
--   Sequence, Soundness and Completeness compare a binding with the key presses so far, Force is
--   about the timer. What a callback does is a parameter.
-- - MouseButtons: the table `mouse_pressed` of input.c with `check_mouse_keys`, `dup_mouse_clicks`
--   and the loop of `input_domain_gone` that clears it. Laws, Repeat and Gone are about one function
--   each. A domain is a number, and `input_send` is a list of what was sent.
-- - Multitouch: `demultitouch` of input.c with its static variables as a record, and the loop of
--   `input_send` that calls it, on fuel; Laws shows that three rounds are enough.
-- - Gesture: the tables of gesture.c and gesture.h; Gesture/Match has `gesture_match` and
--   `gesture_match_move`, Gesture/Handler has `gesture_handler`. A read outside an array is the
--   result `none`. Bounds, Moves, Frames, Overrun, Crosses and Swipe are the proofs.
-- - Socket: the record of switch.h, `findnext` of socket.c and the loop of `wrapper_server_recv`, on
--   fuel: each round uses up a byte at least, so one more than the bytes is enough. Framing and
--   Chunks are the proofs.
-- - Socket/Sending: `send_to_plugin` and `send_delayed_to_plugin` of socket.c, with the answers of
--   `send` as a list; Whole, Records and Wire are the proofs. Socket/Devices has the queue of device
--   events with Changed, Flushed and Queue for the proofs, Socket/Events has `send_slot` and
--   `send_plugin_event`, with Told for the proofs, Socket/Commands has what comes from the plugin,
--   `process_event` and `send_event`, with Aim for the proofs.
-- - Domains: the table of domains.c, from the lookups to `domain_setup`; what Xen and xenstore say
--   of a domain are parameters. Counts and Unique are the proofs. A pointer to an entry is its
--   index.
-- - Touchpad: touchpad.c without scrolling and motion: Taps has `handle_gestures`, Clicks the
--   buttons and clickpads, Packets `handle_touchpad_event`; Balance, Stuck, Drag, Clickpad and
--   Buttons are about one behaviour each.
-- - Routing: the destinations of the keyboard and the mouse in input.c and encapsulate.c. Previous
--   has what a domain remembers of the keyboard. Filter has the keys of a diverted keyboard, Seamless
--   the choice between two domains that have the keyboard and the mouse. Gone,
--   Silence, Remembered, Typed, Ops and Runs are about a domain that goes away, with any sequence of
--   operations after it, Keys about keys that are down at a change, Return about getting the
--   keyboard back.
-- - Auth: the fields of the authentication window in input.c. Typing is about `auth_collect_key`,
--   Backspace about `auth_backspace`, Tabbing about `auth_tab`; Utf16 has `utf8_to_utf16le` of
--   secure.c, which reads the password. The loops that wrap an index have the index as fuel.
-- - Gesture/Fingers and Tablet: `handle_gestures` and `handle_usb_tablet_event` of usb-tablet.c, the
--   client of the gestures; Tablet/Dropping is about packets that lost events. The scaling of
--   coordinates is a parameter.
-- - Switcher: `go_to_next` of switch.c, with its loop on fuel; Ends shows where twelve rounds are
--   enough and where none are. Mouse has `switcher_switch_on_mouse`, the pointer at an edge, Landed
--   where it is put.
-- - Secure: the sessions of the authentication window in secure.c, with `input_secure` and
--   `input_secure_mode` of input.c and the lock of switch.c. Local has `local_auth`, Remote
--   `auth_remote_status`, Change the changes of passwords, End `auth_end` and `auth_remote_login`, Keys
--   the keys. Proven, Mounted, Tried, Opened, Ended, Reported, Locked and Sessions follow a login from
--   the scripts to whole sessions; Escape is about keys and the context, Blind about what the guest of
--   the window is told, Cleaned about the hashes on the ramdisk. Auth/Status has the statuses and flags
--   of secure.h. What the scripts return and what becomes of a write to a file are lists.
-- - Superhid: superhidplugin.c, which turns the events of a touch screen into reports for the USB
--   gadget. Table and Host have what is known of the reports, Known one event, Synced any events.
-- - Vkbd: xen_event.c and xen_vkbd.c, the keyboard and mouse of a paravirtual guest. Moves and Packets
--   are about the events of a packet, Ring about the ring that is shared with the guest, Leds about the lights.
-- - Focus: focus.c, which decides whether the screen goes elsewhere when a guest comes or goes;
--   Expected is about deaths that are expected.
-- Tests and its children have the theorems at concrete inputs.
--
-- Not modelled: the mouse side of `input_inject` (input.c), the switch of the screen
-- (switch.c), the scrolling and motion of the touchpad, which are arithmetic on
-- `double`; D-Bus, xenstore, files and logging, which are input and
-- output; the making of hashes, which calls libraries; the kernel module under superhid.
pub mod Base
pub mod Multitouch
pub mod MouseButtons
pub mod Bindings
pub mod Gesture
pub mod Socket
pub mod Auth
pub mod Tablet
pub mod Domains
pub mod Touchpad
pub mod Routing
pub mod Switcher
pub mod Secure
pub mod Superhid
pub mod Vkbd
pub mod Focus
mod Tests
