-- ===== src/Auth.antt =====
-- input.c, the fields of the authentication window: what is typed into them, and which one has the
-- focus; and secure.c's `utf8_to_utf16le`, which turns a password into the form that is hashed. A
-- C string is the list of its bytes, a null pointer is `none`. The notices to the window, which
-- change no state here, and the clearing of freed memory are left out. `realloc` and `strdup` do not
-- fail.
pub mod Typing
pub mod Backspace
pub mod Tabbing
pub mod Utf16
pub mod Status
use input.Base.{
  ltb, ◌==◌, if◌then◌else◌, has_bit, length, get_elem?, take, drop, ℤ, pos, negsuc, pos_part, ◌+ℤ◌,
  ◌-ℤ◌, ltb_ℤ, abs, ℕ, zero, suc, ◌+◌, ◌-◌, ◌/◌, ◌%◌, Bool, true, false, ◌||◌, Option, none, some,
  List, [], ◌∷◌, ◌++◌,
}

-- AUTH_FIELD_USERNAME and the three others.
pub data Field : Type 0 where
  user_field pass_field confirm_field previous_field : Field

-- `struct auth_input_state`, and `collect_password`.
pub record AuthInput : Type 0 where
  pub cursor : ℕ
  pub passwd : Option (List ℕ)
  pub passwd_confirm : Option (List ℕ)
  pub passwd_previous : Option (List ℕ)
  pub username : Option (List ℕ)
  pub current_field : Field
  pub collect_password : Bool

-- `struct auth_context_t`, without its title.
pub record AuthContext : Type 0 where
  pub user : List ℕ
  pub flags : ℕ  -- uint32

-- The bits of `flags`, by their number.
abbrev pub flag_confirm_pw : ℕ
flag_confirm_pw = 1

abbrev pub flag_set_local_pw : ℕ
flag_set_local_pw = 2

abbrev pub flag_remote_user : ℕ
flag_remote_user = 3

abbrev pub flag_set_root_pw : ℕ
flag_set_root_pw = 5

abbrev pub flag_change_local_pw : ℕ
flag_change_local_pw = 6

abbrev pub flag_user_hash : ℕ
flag_user_hash = 7

unfoldable pub auth_get_field : Field → AuthInput → Option (List ℕ)
auth_get_field user_field s = s.username
auth_get_field pass_field s = s.passwd
auth_get_field confirm_field s = s.passwd_confirm
auth_get_field previous_field s = s.passwd_previous

-- A write through the pointer that `auth_get_field_ptr` returns.
unfoldable pub put_field : Field → List ℕ → AuthInput → AuthInput
put_field user_field t s = record s { username = some t }
put_field pass_field t s = record s { passwd = some t }
put_field confirm_field t s = record s { passwd_confirm = some t }
put_field previous_field t s = record s { passwd_previous = some t }

-- The order of the flags' tests; with no context there is no order.
unfoldable pub auth_current_tab_order : Option AuthContext → List Field
auth_current_tab_order none = []
auth_current_tab_order (some ctx) =
    if has_bit flag_change_local_pw ctx.flags
    then previous_field ∷ pass_field ∷ confirm_field ∷ []
    else if has_bit flag_confirm_pw ctx.flags
    then pass_field ∷ confirm_field ∷ []
    else if has_bit flag_remote_user ctx.flags
    then pass_field ∷ user_field ∷ []
    else pass_field ∷ []

-- `while (tabindex < 0) tabindex += len;`
unfoldable pub wrap_up : ℕ → ℕ → ℤ → ℤ
wrap_up zero len i = i
wrap_up (suc fuel) len i =
    let rest = wrap_up fuel len (i +ℤ pos len) in if ltb_ℤ i (pos 0) then rest else i

-- `while (tabindex >= len) tabindex -= len;`
unfoldable pub wrap_down : ℕ → ℕ → ℤ → ℤ
wrap_down zero len i = i
wrap_down (suc fuel) len i =
    let rest = wrap_down fuel len (i -ℤ pos len) in if ltb_ℤ i (pos len) then i else rest

-- The fuel is the distance from zero and one: each round goes one step at least.
unfoldable pub auth_wrap_tabindex : Option AuthContext → ℤ → ℤ
unfolding wrap_up wrap_down auth_current_tab_order
auth_wrap_tabindex ctx i =
    let len = length (auth_current_tab_order ctx) in
    let up = wrap_up (abs i + 1) len i in if len == 0 then i else wrap_down (abs up + 1) len up

abbrev pub same_field : Field → Field → Bool
same_field user_field user_field = true
same_field pass_field pass_field = true
same_field confirm_field confirm_field = true
same_field previous_field previous_field = true
same_field _ _ = false

abbrev pub index_of : Field → List Field → Option ℕ
index_of f [] = none
index_of f (g ∷ gs) =
    if same_field g f then some 0 else elim (index_of f gs) [ none ↦ none | some i ↦ some (suc i) ]

-- A field that is not in the order counts as the first.
unfoldable pub auth_get_field_tabindex : Option AuthContext → Field → ℕ
unfolding auth_current_tab_order
auth_get_field_tabindex ctx f = elim (index_of f (auth_current_tab_order ctx)) [
  | none ↦ 0
  | some i ↦ i
]

abbrev text_length : Option (List ℕ) → ℕ
text_length none = 0
text_length (some t) = length t

-- The new field gets the cursor at its end. With no order nothing happens;
-- the index is wrapped first.
abbrev pub focus_on : Option Field → AuthInput → AuthInput
focus_on none s = s
focus_on (some f) s = record s { current_field = f; cursor = text_length (auth_get_field f s) }

unfoldable pub auth_tab : Option AuthContext → ℤ → AuthInput → AuthInput
unfolding auth_wrap_tabindex auth_get_field_tabindex auth_get_field
auth_tab ctx direction s =
    let i =
      auth_wrap_tabindex ctx (pos (auth_get_field_tabindex ctx s.current_field) +ℤ direction) in
    focus_on (get_elem? (auth_current_tab_order ctx) (pos_part i)) s

-- The field that gets the focus when the window opens.
abbrev pub initial_focus : AuthContext → Field
initial_focus ctx =
    if has_bit flag_change_local_pw ctx.flags
    then previous_field
    else if has_bit flag_set_local_pw ctx.flags
    then pass_field
    else if has_bit flag_confirm_pw ctx.flags || has_bit flag_set_root_pw ctx.flags
    then pass_field
    else if length ctx.user == 0
    then user_field
    else pass_field

unfoldable pub auth_figure_initial_focus : Option AuthContext → AuthInput → AuthInput
auth_figure_initial_focus none s = s
auth_figure_initial_focus (some ctx) s = record s { current_field = initial_focus ctx }

-- `field[len - 1] = 0`
abbrev pub drop_last : List ℕ → List ℕ
drop_last [] = []
drop_last (b ∷ []) = []
drop_last (b ∷ (c ∷ bs)) = b ∷ drop_last (c ∷ bs)

abbrev pub shorten : Field → Option (List ℕ) → AuthInput → AuthInput
shorten f none s = s
shorten f (some []) s = s
shorten f (some (b ∷ t)) s = record (put_field f (drop_last (b ∷ t)) s) { cursor = s.cursor - 1 }

unfoldable pub auth_backspace : Field → AuthInput → AuthInput
unfolding auth_get_field put_field
auth_backspace f s = shorten f (auth_get_field f s) s

abbrev text_of : Option (List ℕ) → List ℕ
text_of none = []
text_of (some t) = t

-- The loops that move the tail of the text, and the writes into the gap. The cursor is brought
-- into the text first.
abbrev pub insert_at : ℕ → List ℕ → List ℕ → List ℕ
insert_at cu bytes t = take cu t ++ (bytes ++ drop cu t)

-- A key's `char`, which is signed: a negative one is a Latin-1 letter, stored as UTF-8.
abbrev pub key_bytes : ℤ → List ℕ
key_bytes (pos a) = a ∷ []
key_bytes (negsuc n) = let a = 256 - suc n in (0xC0 + a / 64 % 32) ∷ (0x80 + a % 64) ∷ []

unfoldable pub auth_collect_key : Field → ℤ → AuthInput → AuthInput
auth_collect_key f ascii s =
    let t = text_of (auth_get_field f s) in
    let cu = (if ltb (length t) s.cursor then length t else s.cursor) in
    if s.collect_password
    then record (put_field f (insert_at cu (key_bytes ascii) t) s) {
      cursor = s.cursor + length (key_bytes ascii);
    }
    else s

-- `user_get_name` of user.c asks the database, and is a parameter.
unfoldable pub input_clear_passwd : (List ℕ → List ℕ) → Option AuthContext → AuthInput → AuthInput
unfolding auth_figure_initial_focus
input_clear_passwd user_get_name none s = record s {
  passwd = none;
  passwd_confirm = none;
  passwd_previous = none;
  username = none;
}
input_clear_passwd user_get_name (some ctx) s = auth_figure_initial_focus (some ctx) (record s {
  cursor = 0;
  passwd = some [];
  passwd_confirm = some [];
  passwd_previous = some [];
  username = some (if has_bit flag_user_hash ctx.flags then user_get_name ctx.user else ctx.user);
})
