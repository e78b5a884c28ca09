-- ===== src/Switcher.antt =====
-- switch.c: `go_to_next`, the key that goes to the next guest.
pub mod Ends
pub mod Mouse
pub mod Landed
use input.Routing.{points_to}
use input.Domains.{Domain, domain_with_slot, domain_uivm}
use input.Base.{
  if◌then◌else◌, get_elem?, ℤ, pos, negsuc, eqb_ℤ, ℕ, zero, suc, ◌%◌, Option, none, some, List,
}

-- The guest in a slot, if it is not the UIVM.
abbrev pub candidate : ℕ → List Domain → Option ℕ
candidate slot ds = elim (domain_with_slot (pos slot) ds) [
  | none ↦ none
  | some i ↦ if points_to (domain_uivm ds) i then none else some i
]

-- The loop, on fuel, with the slot of the current guest: `none` if the fuel runs out.
unfoldable pub scan_slots : ℕ → ℕ → ℤ → List Domain → Option (Option ℕ)
scan_slots zero slot start ds = none
scan_slots (suc fuel) slot start ds =
    let rest = scan_slots fuel (suc (slot % 10)) start ds in
    if eqb_ℤ (pos slot) start
    then some none
    else elim (candidate (slot % 10) ds) [ none ↦ rest | some i ↦ some (some i) ]

-- A slot is -1 or above.
abbrev pub slot_after : ℤ → ℕ
slot_after (pos k) = suc k
slot_after (negsuc k) = 0

abbrev pub next_of : ℕ → Option Domain → List Domain → Option (Option ℕ)
next_of fuel none ds = some none
next_of fuel (some d) ds = scan_slots fuel (slot_after d.slot) d.slot ds

-- The guest to switch to, if there is one.
unfoldable pub go_to_next : ℕ → Option ℕ → List Domain → Option (Option ℕ)
unfolding scan_slots domain_uivm
go_to_next fuel none ds = some none
go_to_next fuel (some i) ds =
    if points_to (domain_uivm ds) i then some none else next_of fuel (get_elem? ds i) ds
