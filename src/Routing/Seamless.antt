-- ===== src/Routing/Seamless.antt =====
-- input.c: which events go to the domain with the keyboard and which to the domain with the mouse while
-- these are two and no click is waited for, `input_inject_seamless_keyboard` and
-- `input_inject_seamless_mouse`.
use input.Base.{
  leb, ◌==◌, if◌then◌else◌, Event, ev_syn, ev_key, ev_rel, ev_abs, syn_report, btn_left, ℕ, zero,
  suc, Bool, true, false, not, ◌&&◌, ◌||◌, List, [], ◌∷◌,
}

abbrev pub key_esc : ℕ
key_esc = 1

abbrev pub key_tab : ℕ
key_tab = 15

abbrev pub key_leftctrl : ℕ
key_leftctrl = 29

abbrev pub key_leftalt : ℕ
key_leftalt = 56

abbrev pub key_rightctrl : ℕ
key_rightctrl = 97

abbrev pub key_sysrq : ℕ
key_sysrq = 99

abbrev pub key_rightalt : ℕ
key_rightalt = 100

abbrev pub key_delete : ℕ
key_delete = 111

abbrev pub key_leftmeta : ℕ
key_leftmeta = 125

abbrev pub key_rightmeta : ℕ
key_rightmeta = 126

abbrev pub key_switchvideomode : ℕ
key_switchvideomode = 227

-- `key_status_get`, of a code below the table's size
abbrev pub key_status_get : ℕ → List Bool → Bool
key_status_get code [] = false
key_status_get zero (b ∷ keys) = b
key_status_get (suc code) (b ∷ keys) = key_status_get code keys

-- One row of `meta_keys`: all of its keys but the last are down, the last is the event's.
abbrev pub ends_row : ℕ → List Bool → List ℕ → Bool
ends_row code keys [] = false
ends_row code keys (last ∷ []) = code == last
ends_row code keys (first ∷ second ∷ row) =
    key_status_get first keys && ends_row code keys (second ∷ row)

abbrev pub ends_any_row : ℕ → List Bool → List (List ℕ) → Bool
ends_any_row code keys [] = false
ends_any_row code keys (row ∷ rows) = ends_row code keys row || ends_any_row code keys rows

abbrev pub switch_keys : List (List ℕ)
switch_keys =
    (key_rightalt ∷ key_tab ∷ [])
    ∷ (key_leftalt ∷ key_tab ∷ [])
    ∷ (key_leftctrl ∷ key_esc ∷ [])
    ∷ (key_rightctrl ∷ key_esc ∷ [])
    ∷ []

abbrev pub attention_keys : List (List ℕ)
attention_keys =
    (key_leftctrl ∷ key_leftalt ∷ key_delete ∷ [])
    ∷ (key_rightctrl ∷ key_leftalt ∷ key_delete ∷ [])
    ∷ (key_leftctrl ∷ key_rightalt ∷ key_delete ∷ [])
    ∷ (key_rightctrl ∷ key_rightalt ∷ key_delete ∷ [])
    ∷ []

abbrev pub meta_keys : List ℕ
meta_keys =
    key_leftctrl ∷ key_leftalt ∷ key_leftmeta ∷ key_rightctrl ∷ key_rightalt ∷ key_rightmeta
    ∷ key_sysrq ∷ []

abbrev pub is_or_down : ℕ → List Bool → List ℕ → Bool
is_or_down code keys [] = false
is_or_down code keys (k ∷ ks) = code == k || key_status_get k keys || is_or_down code keys ks

unfoldable pub code_is_meta_key : ℕ → List Bool → Bool
code_is_meta_key code keys = is_or_down code keys meta_keys

-- BTN_MOUSE to BTN_GEAR_UP
abbrev pub is_mouse_event : Event → Bool
is_mouse_event e =
    e.type == ev_rel
    || e.type == ev_abs
    || (e.type == ev_key && leb btn_left e.code && leb e.code 0x151)

unfoldable pub input_inject_seamless_keyboard : Event → List Bool → Bool
input_inject_seamless_keyboard e keys =
    if key_status_get key_leftmeta keys || key_status_get key_rightmeta keys
    then false
    else if is_mouse_event e
    then false
    else not (e.type == ev_key && ends_any_row e.code keys switch_keys)

unfoldable pub input_inject_seamless_mouse : Event → List Bool → Bool
unfolding code_is_meta_key
input_inject_seamless_mouse e keys =
    if e.type == ev_key && ends_any_row e.code keys attention_keys
    then false
    else if code_is_meta_key e.code keys
    then true
    else is_mouse_event e || (e.type == ev_syn && e.code == syn_report)
