-- ===== src/Socket/Framing.antt =====
-- The framing of the received stream.
use input.Base.{
  leb, ◌==◌, Bool-cases, length, drop, length-append, ℕ, zero, suc, ◌≤◌, ◌<◌, ◌≡◌, refl, sym, ap,
  ◌∙◌, inl, inr, true, false, Option, none, some, List, [], ◌∷◌, ◌++◌, arith,
}
use input.Socket.{EventRecord, magic_word, event_size, byte_at, decode, findnext}

byte_at-append : (a b : List ℕ) (i : ℕ) → i < length a → byte_at (a ++ b) i ≡ byte_at a i
byte_at-append [] b i h = elim h [ ]
byte_at-append (x ∷ a) b zero h = refl
byte_at-append (x ∷ a) b (suc i) h = byte_at-append a b i (omega arith)

drop-append {ℓ} :
    {A : Type ℓ} (n : ℕ) (a b : List A) → n ≤ length a → drop n (a ++ b) ≡ drop n a ++ b
drop-append zero a b h = refl
drop-append (suc n) [] b h = elim h [ ]
drop-append (suc n) (x ∷ a) b h = drop-append n a b (omega arith)

decode-append : (a b : List ℕ) → event_size ≤ length a → decode (a ++ b) ≡ decode a
unfolding decode
decode-append a b h = rw (
  byte_at-append a b 0 (omega arith),
  byte_at-append a b 1 (omega arith),
  byte_at-append a b 2 (omega arith),
  byte_at-append a b 3 (omega arith),
  byte_at-append a b 4 (omega arith),
  byte_at-append a b 5 (omega arith),
  byte_at-append a b 6 (omega arith),
  byte_at-append a b 7 (omega arith),
  byte_at-append a b 8 (omega arith),
  byte_at-append a b 9 (omega arith),
  byte_at-append a b 10 (omega arith),
  byte_at-append a b 11 (omega arith),
)

leb-true : (a b : ℕ) → a ≤ b → leb a b ≡ true
leb-true a b h = ground arith

leb-false : (a b : ℕ) → b < a → leb a b ≡ false
leb-false a b h = ground arith

pub le_of_leb : (a b : ℕ) → leb a b ≡ true → a ≤ b
le_of_leb a b h = ground arith

pub lt_of_leb : (a b : ℕ) → leb a b ≡ false → b < a
lt_of_leb a b h = ground arith

pub findnext_short :
    (b : ℕ) (bs : List ℕ) → length (b ∷ bs) < event_size → findnext (b ∷ bs) ≡ (none, b ∷ bs)
unfolding findnext
findnext_short b bs h = rw (leb-false event_size (length (b ∷ bs)) h)

pub findnext_hit :
    (b : ℕ) (bs : List ℕ)
    → event_size ≤ length (b ∷ bs)
    → ((decode (b ∷ bs)).magic == magic_word) ≡ true
    → findnext (b ∷ bs) ≡ (some (decode (b ∷ bs)), drop event_size (b ∷ bs))
unfolding findnext
findnext_hit b bs h m = rw (leb-true event_size (length (b ∷ bs)) h) (rw m)

pub findnext_skip :
    (b : ℕ) (bs : List ℕ)
    → event_size ≤ length (b ∷ bs)
    → ((decode (b ∷ bs)).magic == magic_word) ≡ false
    → findnext (b ∷ bs) ≡ findnext bs
unfolding findnext
findnext_skip b bs h m = rw (leb-true event_size (length (b ∷ bs)) h) (rw m)

length-append-le : (a b : List ℕ) → length a ≤ length (a ++ b)
length-append-le a b = omega (arith, length-append a b)

-- A record that is found is found whatever follows.
pub findnext_found :
    (a b rest : List ℕ) (r : EventRecord)
    → findnext a ≡ (some r, rest)
    → findnext (a ++ b) ≡ (some r, rest ++ b)
findnext_found [] b rest r e = unfold findnext in cc
findnext_found (x ∷ a) b rest r e = elim (Bool-cases (leb event_size (length (x ∷ a)))) [
  | inr short ↦ cc (e, findnext_short x a (lt_of_leb _ _ short))
  | inl long ↦
      let h = le_of_leb _ _ long in
      let h' : event_size ≤ length (x ∷ (a ++ b)) = omega (arith, h, length-append-le a b) in
      let same = decode-append (x ∷ a) b h in
      elim (Bool-cases ((decode (x ∷ a)).magic == magic_word)) [
        | inl hit ↦
            findnext_hit x (a ++ b) h' (rw same hit)
            ∙ rw (same, drop-append event_size (x ∷ a) b h) (cc (e, findnext_hit x a h hit))
        | inr miss ↦
            findnext_skip x (a ++ b) h' (rw same miss)
            ∙ findnext_found a b rest r (sym (findnext_skip x a h miss) ∙ e)
      ]
]

-- Where none is found, what is left says all that is needed of what was skipped.
pub findnext_missing :
    (a b rest : List ℕ) → findnext a ≡ (none, rest) → findnext (a ++ b) ≡ findnext (rest ++ b)
findnext_missing [] b rest e = unfold findnext in ground arith
findnext_missing (x ∷ a) b rest e = elim (Bool-cases (leb event_size (length (x ∷ a)))) [
  | inr short ↦
      ap (λ (p : Option EventRecord × List ℕ). findnext (p.1 ++ b))
        (sym (findnext_short x a (lt_of_leb _ _ short)) ∙ e)
  | inl long ↦
      let h = le_of_leb _ _ long in
      let h' : event_size ≤ length (x ∷ (a ++ b)) = omega (arith, h, length-append-le a b) in
      let same = decode-append (x ∷ a) b h in
      elim (Bool-cases ((decode (x ∷ a)).magic == magic_word)) [
        | inl hit ↦ cc (e, findnext_hit x a h hit)
        | inr miss ↦
            findnext_skip x (a ++ b) h' (rw same miss)
            ∙ findnext_missing a b rest (sym (findnext_skip x a h miss) ∙ e)
      ]
]
