-- ===== src/Focus.antt =====
-- focus.c: which guest gets the screen when a paravirtual one goes away. The time is an argument. The
-- static array `slots` is a list of NSLOTS, 11, places; `domid` in it is never written and is left out.
pub mod Expected
use input.Domains.{same_text}
use input.Base.{
  ltb, if◌then◌else◌, get_elem?, ℤ, pos, negsuc, ◌-ℤ◌, ltb_ℤ, ℕ, zero, suc, ◌+◌, Bool, false, not,
  ◌&&◌, ◌||◌, Option, none, some, List, [], ◌∷◌,
}

abbrev pub death_window_length : ℕ
death_window_length = 30

abbrev pub nslots : ℕ
nslots = 11

-- `struct timeval`
pub record Timeval : Type 0 where
  pub tv_sec : ℕ
  pub tv_usec : ℕ

pub record FocusSlot : Type 0 where
  pub death_window : Timeval
  pub pvm : Bool

-- What focus.c looks at in a domain.
pub record Incumbent : Type 0 where
  pub slot : ℤ
  pub is_pvm : Bool
  pub uuid : Option (List ℕ)

abbrev pub in_slots : ℤ → Option ℕ
in_slots (negsuc n) = none
in_slots (pos n) = if ltb n nslots then some n else none

abbrev pub change_at : ℕ → (FocusSlot → FocusSlot) → List FocusSlot → List FocusSlot
change_at i f [] = []
change_at zero f (s ∷ slots) = f s ∷ slots
change_at (suc i) f (s ∷ slots) = s ∷ change_at i f slots

abbrev pub change_slot : (FocusSlot → FocusSlot) → Option ℕ → List FocusSlot → List FocusSlot
change_slot f none slots = slots
change_slot f (some i) slots = change_at i f slots

unfoldable pub focus_expect_death : Timeval → Incumbent → List FocusSlot → List FocusSlot
focus_expect_death now d slots =
    change_slot (λ s. record s { death_window = now }) (in_slots d.slot) slots

abbrev pub no_window : FocusSlot → FocusSlot
no_window s = record s { death_window = record { tv_sec = 0; tv_usec = s.death_window.tv_usec } }

unfoldable pub focus_dont_expect_death : Incumbent → List FocusSlot → List FocusSlot
focus_dont_expect_death d slots = change_slot no_window (in_slots d.slot) slots

-- The seconds that `timersub` leaves.
abbrev pub seconds_between : Timeval → Timeval → ℤ
seconds_between now w =
    let borrow = if ltb now.tv_usec w.tv_usec then 1 else 0 in
    pos now.tv_sec -ℤ pos (w.tv_sec + borrow)

unfoldable pub expecting_death : Timeval → FocusSlot → Bool
expecting_death now s =
    let diff = seconds_between now s.death_window in
    not (ltb_ℤ diff (pos 0)) && not (ltb_ℤ (pos death_window_length) diff)

abbrev pub expected_in : Timeval → Option FocusSlot → Bool
expected_in now none = false
expected_in now (some s) = expecting_death now s

-- Whether the screen goes to the UIVM.
abbrev pub gone_from : Timeval → Option ℕ → List FocusSlot → Bool
gone_from now none slots = false
gone_from now (some i) slots = not (expected_in now (get_elem? slots i))

unfoldable pub focus_domain_gone : Timeval → Incumbent → List FocusSlot → Bool
unfolding expecting_death
focus_domain_gone now d slots = d.is_pvm && gone_from now (in_slots d.slot) slots

abbrev pub matches_focus : Option (List ℕ) → Option (List ℕ) → Bool
matches_focus (some f) (some u) = same_text f u
matches_focus _ _ = false

-- Whether a new domain gets the screen: a PVM does, and one with the uuid that was asked for.
unfoldable pub focus_initial_switch : Option (List ℕ) → Incumbent → Bool
focus_initial_switch focus_uuid d = d.is_pvm || matches_focus focus_uuid d.uuid

abbrev pub update_in :
    Option (List ℕ) → Option ℕ → Incumbent → List FocusSlot → Bool × List FocusSlot
update_in focus_uuid none d slots = (false, slots)
update_in focus_uuid (some i) d slots = (
  focus_initial_switch focus_uuid d,
  change_at i (λ s. record s { pvm = d.is_pvm }) (focus_dont_expect_death d slots),
)

unfoldable pub focus_update_domain :
    Option (List ℕ) → Incumbent → List FocusSlot → Bool × List FocusSlot
unfolding focus_initial_switch focus_dont_expect_death
focus_update_domain focus_uuid d slots = update_in focus_uuid (in_slots d.slot) d slots
