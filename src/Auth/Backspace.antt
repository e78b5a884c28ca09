-- ===== src/Auth/Backspace.antt =====
-- The backspace key after another one.
use mathlib.Core.List.{append_assoc, append-nil}
use native.Mathlib.Omega.{arith}
use input.Base.{
  length-append, ℤ, pos, negsuc, ℕ, suc, ◌+◌, ◌-◌, ◌/◌, ◌%◌, ◌≡◌, refl, sym, ap, subst, true, some,
  List, [], ◌∷◌, ◌++◌, arith,
}
use input.Auth.{
  Field, AuthInput, put_field, drop_last, shorten, auth_backspace, key_bytes, auth_collect_key,
}
use input.Auth.Typing.{AtEnd, get_put_field, auth_collect_key-AtEnd}

drop_last-append : (t : List ℕ) (b : ℕ) → drop_last (t ++ b ∷ []) ≡ t
drop_last-append [] b = refl
drop_last-append (x ∷ []) b = refl
drop_last-append (x ∷ (y ∷ t)) b = ap (λ r. x ∷ r) (drop_last-append (y ∷ t) b)

shorten-append :
    (f : Field) (t : List ℕ) (b : ℕ) (s : AuthInput)
    → shorten f (some (t ++ b ∷ [])) s ≡ record (put_field f t s) { cursor = s.cursor - 1 }
shorten-append f [] b s = refl
shorten-append f (x ∷ t) b s =
    ap (λ r. record (put_field f r s) { cursor = s.cursor - 1 }) (drop_last-append (x ∷ t) b)

auth_backspace-AtEnd :
    (f : Field) (t : List ℕ) (b : ℕ) (s : AuthInput)
    → AtEnd f (t ++ b ∷ []) s
    → AtEnd f t (auth_backspace f s)
unfolding auth_backspace
auth_backspace-AtEnd f t b s (text, at_end) =
    rw (text, shorten-append f t b s)
      (get_put_field f t s (s.cursor - 1), omega (arith, at_end, length-append t (b ∷ [])))

-- A backspace takes back the last byte of the key before it, where that key was typed with the cursor
-- at the end: all of an ASCII key, but only the second of the two bytes of a Latin-1 letter.
pub auth_backspace-collected :
    (f : Field) (c : ℤ) (t : List ℕ) (s : AuthInput)
    → s.collect_password ≡ true
    → AtEnd f t s
    → AtEnd f (t ++ drop_last (key_bytes c)) (auth_backspace f (auth_collect_key f c s))
auth_backspace-collected f (pos a) t s on h = rw (append-nil t) (
    auth_backspace-AtEnd f t a (auth_collect_key f (pos a) s)
      (auth_collect_key-AtEnd f (pos a) t s on h).0)
auth_backspace-collected f (negsuc n) t s on h =
    let x = 0xC0 + (256 - suc n) / 64 % 32 in
    let y = 0x80 + (256 - suc n) % 64 in
    auth_backspace-AtEnd f (t ++ x ∷ []) y (auth_collect_key f (negsuc n) s) (
      subst (λ r. AtEnd f r (auth_collect_key f (negsuc n) s))
        (sym (append_assoc t (x ∷ []) (y ∷ []))) (auth_collect_key-AtEnd f (negsuc n) t s on h).0)
