-- ===== src/Auth/Typing.antt =====
-- What is typed into a field.
use mathlib.Core.List.{append_assoc, append-nil}
use input.Base.{
  ltb, if◌then◌else◌, length, take, drop, length-append, ℤ, ℕ, ◌+◌, ◌≡◌, refl, ap, ◌∙◌, true, some,
  List, [], ◌∷◌, ◌++◌, arith,
}
use input.Auth.{Field, AuthInput, auth_get_field, put_field, insert_at, key_bytes, auth_collect_key}

-- The cursor stands at the end of the field's text.
abbrev pub AtEnd : Field → List ℕ → AuthInput → Type 0
AtEnd f t s = (auth_get_field f s ≡ some t) × (s.cursor ≡ length t)

take-length {ℓ} : {A : Type ℓ} (t : List A) → take (length t) t ≡ t
take-length [] = refl
take-length (x ∷ t) = ap (λ r. x ∷ r) (take-length t)

drop-length {ℓ} : {A : Type ℓ} (t : List A) → drop (length t) t ≡ []
drop-length [] = refl
drop-length (x ∷ t) = drop-length t

insert_at_end : (t bytes : List ℕ) → insert_at (length t) bytes t ≡ t ++ bytes
insert_at_end t bytes = rw (take-length t, drop-length t, append-nil bytes)

pub get_put_field :
    (f : Field) (t : List ℕ) (s : AuthInput) (n : ℕ)
    → auth_get_field f (record (put_field f t s) { cursor = n }) ≡ some t
unfolding auth_get_field put_field
get_put_field f t s n = ground arith

collect_put_field :
    (f : Field) (t : List ℕ) (s : AuthInput)
    → (put_field f t s).collect_password ≡ s.collect_password
unfolding put_field
collect_put_field f t s = ground arith

clip_end : (n m : ℕ) → n ≡ m → (if ltb m n then m else n) ≡ m
clip_end n m e = ground arith

collected :
    (f : Field) (c : ℤ) (t : List ℕ) (s : AuthInput)
    → s.collect_password ≡ true
    → auth_get_field f s ≡ some t
    → s.cursor ≡ length t
    → auth_collect_key f c s
      ≡ record (put_field f (t ++ key_bytes c) s) { cursor = s.cursor + length (key_bytes c) }
unfolding auth_collect_key
collected f c t s on text at_end = ground (arith, insert_at_end t (key_bytes c))

-- A key that is collected with the cursor at the end is written at the end, and the cursor stays
-- there.
pub auth_collect_key-AtEnd :
    (f : Field) (c : ℤ) (t : List ℕ) (s : AuthInput)
    → s.collect_password ≡ true
    → AtEnd f t s
    → AtEnd f (t ++ key_bytes c) (auth_collect_key f c s)
      × ((auth_collect_key f c s).collect_password ≡ true)
auth_collect_key-AtEnd f c t s on (text, at_end) = rw (collected f c t s on text at_end) (
  (
    get_put_field f (t ++ key_bytes c) s (s.cursor + length (key_bytes c)),
    omega (arith, at_end, length-append t (key_bytes c)),
  ),
  collect_put_field f (t ++ key_bytes c) s ∙ on,
)

-- The keys of a text, one after the other.
abbrev pub type_all : Field → List ℤ → AuthInput → AuthInput
type_all f [] s = s
type_all f (c ∷ cs) s = type_all f cs (auth_collect_key f c s)

abbrev pub bytes_of : List ℤ → List ℕ
bytes_of [] = []
bytes_of (c ∷ cs) = key_bytes c ++ bytes_of cs

-- The text of a field, after keys that were typed with the cursor at its end, is what it was with the
-- bytes of the keys behind it, in their order, and the cursor stands at its end again.
pub type_all-AtEnd :
    (f : Field) (cs : List ℤ) (t : List ℕ) (s : AuthInput)
    → s.collect_password ≡ true
    → AtEnd f t s
    → AtEnd f (t ++ bytes_of cs) (type_all f cs s)
type_all-AtEnd f [] t s on h = rw (append-nil t) h
type_all-AtEnd f (c ∷ cs) t s on h =
    let (h', on') = auth_collect_key-AtEnd f c t s on h in
    rw (← append_assoc t (key_bytes c) (bytes_of cs))
      (type_all-AtEnd f cs (t ++ key_bytes c) (auth_collect_key f c s) on' h')
