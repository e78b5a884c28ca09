-- ===== src/Auth/Tabbing.antt =====
-- Moving between the fields of the authentication window.
use input.Base.{
  ◌==◌, if◌then◌else◌, has_bit, Option-cases, ◌>>=◌, length, get_elem?, ℤ, pos, negsuc, pos_part,
  ◌+ℤ◌, abs, ◌+◌, ◌≡◌, refl, ap, ◌∙◌, inl, inr, Bool, true, false, Option, none, some, List, [],
  ◌∷◌, arith,
}
use input.Auth.{
  Field, user_field, pass_field, confirm_field, previous_field, AuthInput, AuthContext,
  flag_confirm_pw, flag_remote_user, flag_change_local_pw, auth_current_tab_order, wrap_up,
  wrap_down, auth_wrap_tabindex, index_of, auth_get_field_tabindex, focus_on, auth_tab,
}

-- The field is in the tab order.
abbrev IsIn : List Field → Field → Type 0
IsIn o f = elim (index_of f o) [ none ↦ ⊥ | some i ↦ Unit ]

abbrev pub IsListed : Option AuthContext → Field → Type 0
IsListed ctx f = IsIn (auth_current_tab_order ctx) f

-- The two directions.
abbrev pub forward : ℤ
forward = pos 1

abbrev pub backward : ℤ
backward = negsuc 0

-- The field that a tab goes to, in an order.
abbrev in_order : List Field → ℤ → Field → Option Field
unfolding wrap_up wrap_down
in_order o direction f =
    let len = length o in
    let i = pos (elim (index_of f o) [ none ↦ 0 | some i ↦ i ]) +ℤ direction in
    let up = wrap_up (abs i + 1) len i in
    get_elem? o (pos_part (if len == 0 then i else wrap_down (abs up + 1) len up))

tabbed :
    (ctx : AuthContext) (d : ℤ) (s : AuthInput) (g : Field)
    → in_order (auth_current_tab_order (some ctx)) d s.current_field ≡ some g
    → (auth_tab (some ctx) d s).current_field ≡ g
unfolding auth_tab auth_wrap_tabindex auth_get_field_tabindex
tabbed ctx d s g here = ap (λ r. (focus_on r s).current_field) here

abbrev Returns : List Field → Field → Type 0
Returns o f =
    ((in_order o forward f >>= in_order o backward) ≡ some f)
    × ((in_order o backward f >>= in_order o forward) ≡ some f)

abbrev order : Bool → Bool → Bool → List Field
order a b c =
    if a
    then previous_field ∷ pass_field ∷ confirm_field ∷ []
    else if b
    then pass_field ∷ confirm_field ∷ []
    else if c
    then pass_field ∷ user_field ∷ []
    else pass_field ∷ []

orders : (a b c : Bool) (f : Field) → IsIn (order a b c) f → Returns (order a b c) f
unfolding wrap_up wrap_down
orders true b c previous_field h = (refl, refl)
orders true b c pass_field h = (refl, refl)
orders true b c confirm_field h = (refl, refl)
orders false true c pass_field h = (refl, refl)
orders false true c confirm_field h = (refl, refl)
orders false false true pass_field h = (refl, refl)
orders false false true user_field h = (refl, refl)
orders false false false pass_field h = (refl, refl)
orders false false false user_field h = elim h [ ]
orders false false false confirm_field h = elim h [ ]
orders false false false previous_field h = elim h [ ]
orders false false true confirm_field h = elim h [ ]
orders false false true previous_field h = elim h [ ]
orders false true c user_field h = elim h [ ]
orders false true c previous_field h = elim h [ ]
orders true b c user_field h = elim h [ ]

through :
    (o : List Field) (d d' : ℤ) (f : Field)
    → (in_order o d f >>= in_order o d') ≡ some f
    → (g : Field) × ((in_order o d f ≡ some g) × (in_order o d' g ≡ some f))
through o d d' f h = elim (Option-cases (in_order o d f)) [
  | inl e ↦ ground (arith, h, e)
  | inr (g, e) ↦ (g, (e, ground (arith, h, e)))
]

return :
    (ctx : AuthContext) (s : AuthInput) (d d' : ℤ)
    → (in_order (auth_current_tab_order (some ctx)) d s.current_field
        >>= in_order (auth_current_tab_order (some ctx)) d')
      ≡ some s.current_field
    → (auth_tab (some ctx) d' (auth_tab (some ctx) d s)).current_field ≡ s.current_field
return ctx s d d' h =
    let (g, (there, back)) = through (auth_current_tab_order (some ctx)) d d' s.current_field h in
    tabbed ctx d' (auth_tab (some ctx) d s) s.current_field
      (ap (in_order (auth_current_tab_order (some ctx)) d') (tabbed ctx d s g there) ∙ back)

returns :
    (ctx : AuthContext) (f : Field)
    → IsListed (some ctx) f
    → Returns (auth_current_tab_order (some ctx)) f
unfolding auth_current_tab_order
returns ctx f =
    orders (has_bit flag_change_local_pw ctx.flags) (has_bit flag_confirm_pw ctx.flags)
      (has_bit flag_remote_user ctx.flags) f

-- A tab forward and a tab backward, or the other way round, from a field of the tab order come back to it.
pub tab_there_and_back :
    (ctx : AuthContext) (s : AuthInput)
    → IsListed (some ctx) s.current_field
    → ((auth_tab (some ctx) backward (auth_tab (some ctx) forward s)).current_field
        ≡ s.current_field)
      × ((auth_tab (some ctx) forward (auth_tab (some ctx) backward s)).current_field
          ≡ s.current_field)
tab_there_and_back ctx s listed =
    let (a, b) = returns ctx s.current_field listed in
    (return ctx s forward backward a, return ctx s backward forward b)
