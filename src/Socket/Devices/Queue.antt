-- ===== src/Socket/Devices/Queue.antt =====
-- The queue of device events as a set of devices.
use input.Socket.Devices.{set_add, set_remove, queue_conf, queue_reset}
use input.Socket.Sending.{DevEvent}
use input.Base.{◌==◌, if◌then◌else◌, ℕ, ◌<◌, Bool, true, not, ◌&&◌, ◌||◌, List, [], ◌∷◌}

pub data Change : Type 0 where
  came : ℕ → Change
  went : ℕ → Change

abbrev pub IsSmall : Change → Type 0
IsSmall (came s) = s < 255
IsSmall (went s) = s < 255

abbrev pub queue_change : Change → List DevEvent → List DevEvent
queue_change (came s) ds = queue_conf s ds
queue_change (went s) ds = queue_reset s ds

unfoldable pub queue_all : List Change → List DevEvent → List DevEvent
queue_all [] ds = ds
queue_all (c ∷ cs) ds = queue_all cs (queue_change c ds)

abbrev pub present_after : ℕ → Change → Bool → Bool
present_after x (came s) there = s == x || there
present_after x (went s) there = not (s == x) && there

-- Whether a device is there after the changes, oldest first.
unfoldable pub is_present : ℕ → List Change → Bool → Bool
is_present x [] there = there
is_present x (c ∷ cs) there = is_present x cs (present_after x c there)

abbrev change_entry : ℕ → Change → DevEvent → DevEvent
change_entry x (came s) d = if s == x then set_add d else d
change_entry x (went s) d = if s == x then set_remove d else d

abbrev entry_with : Bool → Bool → ℕ → DevEvent
entry_with r a s = record { slot = s; remove = r; add = a }

-- A device comes only while it is not there.
abbrev pub may_change : ℕ → Change → Bool → Bool
may_change x (came s) there = not (s == x && there)
may_change x (went s) there = true

unfoldable pub may_come : ℕ → List Change → Bool → Bool
may_come x [] there = true
may_come x (c ∷ cs) there = may_change x c there && may_come x cs (present_after x c there)

-- Where the plugin knows the device, it is told that it came only after it is told that it went.
abbrev goes_first : Bool → DevEvent → Bool
goes_first known d = not (known && d.add) || d.remove
