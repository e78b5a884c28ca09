-- ===== src/Base/Codes.antt =====
-- `struct input_event` of the kernel without its time, and the codes of the kernel's
-- input-event-codes.h that the daemon tests, with the values of that interface. input.h,
-- usb-tablet.c and touchpad.c repeat some of them.
use Prim.Native.Nat.{ℕ}
use input.Base.Int.{ℤ}

pub record Event : Type 0 where
  pub type : ℕ  -- uint16
  pub code : ℕ  -- uint16
  pub value : ℤ  -- int32

abbrev pub ev_syn : ℕ
ev_syn = 0x00

abbrev pub ev_key : ℕ
ev_key = 0x01

abbrev pub ev_rel : ℕ
ev_rel = 0x02

abbrev pub ev_abs : ℕ
ev_abs = 0x03

abbrev pub syn_report : ℕ
syn_report = 0

abbrev pub syn_mt_report : ℕ
syn_mt_report = 2

abbrev pub syn_dropped : ℕ
syn_dropped = 3

abbrev pub abs_x : ℕ
abs_x = 0x00

abbrev pub abs_y : ℕ
abs_y = 0x01

abbrev pub abs_mt_slot : ℕ
abs_mt_slot = 0x2f

abbrev pub abs_mt_touch_major : ℕ
abs_mt_touch_major = 0x30

abbrev pub abs_mt_orientation : ℕ
abs_mt_orientation = 0x34

abbrev pub abs_mt_position_x : ℕ
abs_mt_position_x = 0x35

abbrev pub abs_mt_position_y : ℕ
abs_mt_position_y = 0x36

abbrev pub abs_mt_tool_type : ℕ
abs_mt_tool_type = 0x37

abbrev pub abs_mt_blob_id : ℕ
abs_mt_blob_id = 0x38

abbrev pub abs_mt_tracking_id : ℕ
abs_mt_tracking_id = 0x39

abbrev pub abs_mt_pressure : ℕ
abs_mt_pressure = 0x3a

abbrev pub abs_mt_distance : ℕ
abs_mt_distance = 0x3b

abbrev pub btn_misc : ℕ
btn_misc = 0x100

abbrev pub btn_left : ℕ
btn_left = 0x110

abbrev pub btn_joystick : ℕ
btn_joystick = 0x120
