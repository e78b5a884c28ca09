-- ===== src/Switcher/Mouse.antt =====
-- switch.c, `switcher_switch_on_mouse`: the pointer at an edge of the screen goes on to the next guest. What
-- `domain_mouse_switch_config` and the database have is an argument, as is what `switch_to_slot` answers.
use input.Base.{
  ◌==◌, if◌then◌else◌, ℤ, pos, negsuc, ◌-ℤ◌, ltb_ℤ, eqb_ℤ, is_zero, Event, ev_abs, Bool, true,
  false, not, ◌&&◌, ◌||◌, Option, none, some,
}

abbrev pub max_mouse_abs_x : ℤ
max_mouse_abs_x = pos 0x7FFF

-- MOUSE_SWITCH_PREV
abbrev pub mouse_switch_prev : ℤ
mouse_switch_prev = negsuc 1

-- `enum video_adapter`; VIDEO_ADAPTER_INTEL is never given.
pub data VideoAdapter : Type 0 where
  domain_gone default_adapter intel_adapter other_adapter : VideoAdapter

-- The name of a guest's adapter, by what is found in it.
pub record AdapterName : Type 0 where
  pub is_empty : Bool
  pub has_citrix : Bool
  pub has_intel : Bool

abbrev pub adapter_named : Option AdapterName → VideoAdapter
adapter_named none = default_adapter
adapter_named (some v) =
    if v.is_empty || v.has_citrix
    then default_adapter
    else if v.has_intel
    then default_adapter
    else other_adapter

-- No guest in the slot, or its adapter's name if that is in xenstore.
unfoldable pub switcher_get_slot_type : Option (Option AdapterName) → VideoAdapter
switcher_get_slot_type none = domain_gone
switcher_get_slot_type (some v) = adapter_named v

abbrev pub adapters_differ : VideoAdapter → VideoAdapter → Bool
adapters_differ domain_gone to = false
adapters_differ from domain_gone = false
adapters_differ intel_adapter intel_adapter = false
adapters_differ intel_adapter default_adapter = false
adapters_differ default_adapter intel_adapter = false
adapters_differ default_adapter default_adapter = false
adapters_differ from to = true

-- What the function asks others: the current guest's slot, whether it can place the pointer, the switch in
-- the database, the guests at its left and right, the guest that had the screen before it, the adapters of the
-- slots, and whether the switch to a slot goes well.
pub record Surroundings : Type 0 where
  pub current : Option ℤ
  pub supports_abs : Bool
  pub disabled : Bool
  pub left : ℤ
  pub right : ℤ
  pub surface_current : Option ℤ
  pub adapter : ℤ → Option (Option AdapterName)
  pub switched : ℤ → Bool

unfoldable pub switcher_switch_makes_sense : Surroundings → ℤ → ℤ → Bool
unfolding switcher_get_slot_type
switcher_switch_makes_sense s from to =
    adapters_differ (switcher_get_slot_type (s.adapter from))
      (switcher_get_slot_type (s.adapter to))

abbrev pub is_inside : ℤ → Bool
is_inside x = ltb_ℤ (pos 0) x && ltb_ℤ x max_mouse_abs_x

-- The slot that is switched to, if it is, and where the pointer goes in it.
abbrev pub switch_into : Surroundings → ℤ → ℤ → Option (ℤ × ℤ)
switch_into s slot x = if not (ltb_ℤ slot (pos 0)) && s.switched slot then some (slot, x) else none

abbrev pub to_prev : Surroundings → Option ℤ → ℤ → Option (ℤ × ℤ)
to_prev s none x = none
to_prev s (some slot) x = switch_into s slot x

abbrev pub past_edge : Surroundings → ℤ → ℤ → ℤ → Option (ℤ × ℤ)
past_edge s from slot x =
    if eqb_ℤ slot (negsuc 0) || not (switcher_switch_makes_sense s from slot)
    then none
    else if eqb_ℤ slot mouse_switch_prev
    then to_prev s s.surface_current x
    else switch_into s slot x

abbrev pub from_guest : Surroundings → Option ℤ → ℤ → Option (ℤ × ℤ)
from_guest s none x = none
from_guest s (some from) x =
    if not s.supports_abs || is_inside x || s.disabled
    then none
    else if is_zero x
    then past_edge s from s.left (max_mouse_abs_x -ℤ pos 1)
    else if eqb_ℤ x max_mouse_abs_x
    then past_edge s from s.right (pos 1)
    else none

unfoldable pub switcher_switch_on_mouse : Surroundings → Event → ℤ → Option (ℤ × ℤ)
unfolding switcher_switch_makes_sense
switcher_switch_on_mouse s e x = if e.type == ev_abs then from_guest s s.current x else none
