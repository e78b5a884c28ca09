-- ===== src/Routing/Previous.antt =====
-- input.c: the domain that had the keyboard, remembered by the one that is switched away from.
use input.Domains.{Domain, minus_one, update_at, no_prev_keyb}
use input.Routing.{Router, points_to, input_give_keyboard, input_return_keyboard}
use input.Base.{◌==◌, if◌then◌else◌, get_elem?, ℤ, eqb_ℤ, ℕ, not, ◌&&◌, Option, none, some}

abbrev pub domid_of : ℕ → Router → ℤ
domid_of i r = elim (get_elem? r.domains i) [ none ↦ minus_one | some d ↦ d.domid ]

abbrev pub update_domain : ℕ → (Domain → Domain) → Router → Router
update_domain i f r = record r { domains = update_at i f r.domains }

abbrev pub with_prev_keyb : ℕ → ℤ → Domain → Domain
with_prev_keyb k domid d = record d { prev_keyb_domain_ptr = some k; prev_keyb_domid = domid }

unfoldable pub input_give_keyboard_from_domain : Option ℕ → Option ℕ → Router → Router
unfolding input_give_keyboard update_at
input_give_keyboard_from_domain none n r = r
input_give_keyboard_from_domain (some i) none r = r
input_give_keyboard_from_domain (some i) (some k) r =
    if i == k
    then r
    else if points_to r.mouse_dest i
    then input_give_keyboard (some k) r
    else update_domain i (with_prev_keyb k (domid_of k r)) r

abbrev pub forget_keyb : ℕ → ℤ → Domain → Domain
forget_keyb k domid d =
    if points_to d.prev_keyb_domain_ptr k && eqb_ℤ d.prev_keyb_domid domid
    then no_prev_keyb d
    else d

unfoldable pub input_return_keyboard_to_domain : Option ℕ → Option ℕ → Router → Router
unfolding input_return_keyboard update_at
input_return_keyboard_to_domain none n r = r
input_return_keyboard_to_domain (some i) none r = r
input_return_keyboard_to_domain (some i) (some k) r =
    if i == k
    then r
    else if points_to r.mouse_dest i
    then input_return_keyboard (some k) r
    else update_domain i (forget_keyb k (domid_of k r)) r

-- The domain `i` remembers who has the keyboard, if that is not who has the mouse.
abbrev pub remember : ℕ → Option ℕ → Option ℕ → Router → Router
remember i none m r = r
remember i (some k) none r = r
remember i (some k) (some m) r =
    update_domain i (if k == m then no_prev_keyb else with_prev_keyb k (domid_of k r)) r

unfoldable pub save_prev_keyb_domain : Option ℕ → Router → Router
unfolding update_at
save_prev_keyb_domain none r = r
save_prev_keyb_domain (some i) r = remember i r.keyb_dest r.mouse_dest r

abbrev pub give_back : Option ℕ → ℤ → Router → Router
give_back none domid r = r
give_back (some k) domid r =
    if not (eqb_ℤ domid minus_one) && eqb_ℤ (domid_of k r) domid
    then input_give_keyboard (some k) r
    else r

abbrev pub restore_in : Option Domain → Router → Router
restore_in none r = r
restore_in (some d) r = give_back d.prev_keyb_domain_ptr d.prev_keyb_domid r

unfoldable pub restore_prev_keyb_domain : Option ℕ → Router → Router
unfolding input_give_keyboard
restore_prev_keyb_domain none r = r
restore_prev_keyb_domain (some i) r = restore_in (get_elem? r.domains i) r
