-- ===== src/Secure/Blind.antt =====
-- What the window's guest learns of a password: nothing but how many keys it has.
use input.Secure.{World, Host}
use input.Secure.End.{text_of}
use input.Auth.{
  Field, user_field, pass_field, confirm_field, previous_field, AuthInput, auth_get_field,
  put_field, insert_at, key_bytes, auth_collect_key,
}
use input.Base.{
  ltb, ◌==◌, if◌then◌else◌, ◌>>=◌, length, ℤ, pos, is_zero, Event, ℕ, ◌+◌, ◌≡◌, refl, ap, ◌∙◌, Bool,
  true, false, Option, some, List, [], ◌∷◌, ◌++◌,
}
use input.Secure.Keys.{
  key_esc, key_backspace, key_tab, key_enter, key_space, with_fields, escape, tab, backspace, enter,
  plain, key_of, Outside, key_like, is_user, plop, is_key_down, told_window, key_down, then_tell,
  secure_key,
}

printable_told :
    (o : Outside) (e : Event) (field : Field)
    → is_zero o.ascii ≡ false
    → e.code == key_tab ≡ false
    → is_user field ≡ false
    → told_window o e field ≡ (if is_key_down e then plop key_space else [])
printable_told o e field h h' h'' = rw (h, h', h'') refl

field-put :
    (f : Field) (t : List ℕ) (s : AuthInput) → (put_field f t s).current_field ≡ s.current_field
unfolding put_field
field-put user_field t s = refl
field-put pass_field t s = refl
field-put confirm_field t s = refl
field-put previous_field t s = refl

field-if :
    (b : Bool) (f : Field) (s s' : AuthInput)
    → s.current_field ≡ f
    → s'.current_field ≡ f
    → (if b then s else s').current_field ≡ f
field-if true f s s' h h' = h
field-if false f s s' h h' = h'

world-if :
    (b : Bool) (f : Field) (w v : World)
    → w.fields.current_field ≡ f
    → v.fields.current_field ≡ f
    → (if b then w else v).fields.current_field ≡ f
world-if true f w v h h' = h
world-if false f w v h h' = h'

field-collect :
    (f : Field) (c : ℤ) (s : AuthInput) → (auth_collect_key f c s).current_field ≡ s.current_field
unfolding auth_collect_key
field-collect f c s =
    let t = text_of (auth_get_field f s) in
    let cu = if ltb (length t) s.cursor then length t else s.cursor in
    let s' = put_field f (insert_at cu (key_bytes c) t) s in
    field-if s.collect_password s.current_field
      (record s' { cursor = s.cursor + length (key_bytes c) }) s
      (field-put f (insert_at cu (key_bytes c) t) s) refl

plain_not_tab :
    (a b c d : Bool)
    → (if a then escape else if b then tab else if c then backspace else if d then enter else plain)
      ≡ plain
    → b ≡ false
plain_not_tab true b c d h = cc
plain_not_tab false true c d h = cc
plain_not_tab false false c d h = refl

key_tab-not : (code : ℕ) → key_of code ≡ plain → code == key_tab ≡ false
key_tab-not code h =
    plain_not_tab (code == key_esc) (code == key_tab) (code == key_backspace) (code == key_enter) h

-- A printable key, with what the outside says of it.
pub record Typed : Type 0 where
  pub outside : Outside
  pub code : ℕ
  pub printable : is_zero outside.ascii ≡ false
  pub plain_key : key_of code ≡ plain

module _ (host : Host) where
  -- The keys go down one after another; what is injected is put together.
  pub press_all : List Typed → World → Option (List Event × World)
  press_all [] w = some ([], w)
  press_all (t ∷ ts) w = do
    (es, v) ← secure_key host t.outside (key_like t.code (pos 1)) w
    (es', v') ← press_all ts v
    some (es ++ es', v')

  pub blanks {ℓ} : {A : Type ℓ} → List A → List Event
  blanks [] = []
  blanks (x ∷ xs) = plop key_space ++ blanks xs

  typed_world : Typed → World → World
  typed_world t w =
      if is_zero t.outside.ascii
      then w
      else with_fields (λ f. auth_collect_key f.current_field t.outside.ascii f) w

  typed-field :
      (t : Typed) (w : World) → (typed_world t w).fields.current_field ≡ w.fields.current_field
  unfolding typed_world
  typed-field t w =
      let v = with_fields (λ f. auth_collect_key f.current_field t.outside.ascii f) w in
      world-if (is_zero t.outside.ascii) w.fields.current_field w v refl
        (field-collect w.fields.current_field t.outside.ascii w.fields)

  one-blind :
      (t : Typed) (w : World)
      → is_user w.fields.current_field ≡ false
      → secure_key host t.outside (key_like t.code (pos 1)) w
        ≡ some (plop key_space, typed_world t w)
  unfolding secure_key typed_world
  one-blind t w h =
      let e = key_like t.code (pos 1) in
      let v = typed_world t w in
      ap (λ k. then_tell host t.outside e (key_down host k t.outside w)) t.plain_key
      ∙ ap (λ es. some (es, v))
          (printable_told t.outside e v.fields.current_field t.printable
            (key_tab-not t.code t.plain_key) (ap is_user (typed-field t w) ∙ h))

  -- Keys that stand for characters are pressed in a password's field: whatever they are, the guest of the
  -- window is given one blank for each, down and up, and nothing else.
  pub press_all-blind :
      (ts : List Typed) (w : World)
      → is_user w.fields.current_field ≡ false
      → (v : World) × (press_all ts w ≡ some (blanks ts, v))
  unfolding press_all blanks
  press_all-blind [] w h = (w, refl)
  press_all-blind (t ∷ ts) w h =
      let (v, e) = press_all-blind ts (typed_world t w) (ap is_user (typed-field t w) ∙ h) in
      (v, rw (one-blind t w h, e) refl)
