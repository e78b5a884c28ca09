-- ===== src/Auth/Utf16.antt =====
-- secure.c, `utf8_to_utf16le`, against the fields of the authentication window.
use input.Auth.Typing.{bytes_of}
use input.Base.{
  ltb, ◌==◌, if◌then◌else◌, length, All, ℤ, pos, negsuc, ℕ, zero, suc, ◌+◌, ◌-◌, ◌*◌, ◌/◌, ◌%◌, ◌≤◌,
  ◌<◌, ◌≡◌, refl, ap, ◌∙◌, true, false, ◌||◌, Option, none, some, List, [], ◌∷◌, arith,
}

-- A unit, its low byte first, before what is written later.
abbrev emit : ℕ → List ℕ → List ℕ
emit v rest = v % 256 ∷ v / 256 ∷ rest

-- `switch (c >> 4)`: how many bytes follow a leading byte; `none` is the default case, which stops.
abbrev following : ℕ → Option ℕ
following c =
    if ltb (c / 16) 8
    then some 0
    else if c / 16 == 12 || c / 16 == 13
    then some 1
    else if c / 16 == 14
    then some 2
    else none

abbrev two_bytes : ℕ → ℕ → ℕ
two_bytes c d = c % 32 * 64 + d % 64

abbrev three_bytes : ℕ → ℕ → ℕ → ℕ
three_bytes c d e = c % 16 * 4096 + d % 64 * 64 + e % 64

-- The loop: `len` is the length of the source, `write` the number of bytes written so far, and the
-- list what is left to read. It gives the bytes that it goes on to write; where the bytes that
-- should follow are missing it stops.
unfoldable pub utf16_loop : ℕ → ℕ → List ℕ → List ℕ
utf16_loop len write [] = []
utf16_loop len write (c ∷ []) = elim (ltb write (len * 2 - 1)) [
  | false ↦ []
  | true ↦ elim (following c) [ some zero ↦ emit c [] | _ ↦ [] ]
]
utf16_loop len write (c ∷ (d ∷ [])) = elim (ltb write (len * 2 - 1)) [
  | false ↦ []
  | true ↦ elim (following c) [
    | some zero ↦ emit c (utf16_loop len (write + 2) (d ∷ []))
    | some (suc zero) ↦ emit (two_bytes c d) []
    | _ ↦ []
  ]
]
utf16_loop len write (c ∷ (d ∷ (e ∷ r))) = elim (ltb write (len * 2 - 1)) [
  | false ↦ []
  | true ↦ elim (following c) [
    | some zero ↦ emit c (utf16_loop len (write + 2) (d ∷ (e ∷ r)))
    | some (suc zero) ↦ emit (two_bytes c d) (utf16_loop len (write + 2) (e ∷ r))
    | some (suc (suc n)) ↦ emit (three_bytes c d e) (utf16_loop len (write + 2) r)
    | none ↦ []
  ]
]

unfoldable pub utf8_to_utf16le : List ℕ → List ℕ
unfolding utf16_loop
utf8_to_utf16le src = utf16_loop (length src) 0 src

-- The keys whose `char` is ASCII or a Latin-1 letter, and the letter's code.
abbrev pub IsLatin : ℤ → Type 0
IsLatin (pos a) = a < 128
IsLatin (negsuc n) = n < 128

abbrev pub letter : ℤ → ℕ
letter (pos a) = a
letter (negsuc n) = 256 - suc n

abbrev pub units : List ℤ → List ℕ
units [] = []
units (c ∷ cs) = emit (letter c) (units cs)

one_byte :
    (len write c : ℕ) (r : List ℕ)
    → c < 128
    → write + 2 ≤ len * 2
    → utf16_loop len write (c ∷ r) ≡ emit c (utf16_loop len (write + 2) r)
unfolding utf16_loop
one_byte len write c [] small room = ground arith
one_byte len write c (d ∷ []) small room = ground arith
one_byte len write c (d ∷ (e ∷ r)) small room = ground arith

two_byte :
    (len write c d : ℕ) (r : List ℕ)
    → c / 16 ≡ 12
    → write + 2 ≤ len * 2
    → utf16_loop len write (c ∷ (d ∷ r)) ≡ emit (two_bytes c d) (utf16_loop len (write + 2) r)
unfolding utf16_loop
two_byte len write c d [] lead room = ground arith
two_byte len write c d (e ∷ r) lead room = ground arith

latin_lead : (n : ℕ) → n < 128 → (0xC0 + (256 - suc n) / 64 % 32) / 16 ≡ 12
latin_lead n small = omega arith

latin_code :
    (n : ℕ)
    → n < 128
    → two_bytes (0xC0 + (256 - suc n) / 64 % 32) (0x80 + (256 - suc n) % 64) ≡ 256 - suc n
latin_code n small = omega arith

loop_latin :
    (cs : List ℤ) (len write : ℕ)
    → All IsLatin cs
    → write + length (bytes_of cs) * 2 ≤ len * 2
    → utf16_loop len write (bytes_of cs) ≡ units cs
unfolding utf16_loop
loop_latin [] len write small room = refl
loop_latin (pos a ∷ cs) len write (h, hs) room =
    one_byte len write a (bytes_of cs) h (omega arith)
    ∙ ap (emit a) (loop_latin cs len (write + 2) hs (omega arith))
loop_latin (negsuc n ∷ cs) len write (h, hs) room =
    two_byte len write (0xC0 + (256 - suc n) / 64 % 32) (0x80 + (256 - suc n) % 64) (bytes_of cs)
      (latin_lead n h) (omega arith)
    ∙ (ap (λ v. emit v (utf16_loop len (write + 2) (bytes_of cs))) (latin_code n h)
        ∙ ap (emit (256 - suc n)) (loop_latin cs len (write + 2) hs (omega arith)))

-- A text of ASCII and Latin-1 keys, as the password field stores it, becomes the codes of its letters,
-- each in two bytes with the low byte first, in their order.
pub utf8_to_utf16le_latin :
    (cs : List ℤ) → All IsLatin cs → utf8_to_utf16le (bytes_of cs) ≡ units cs
unfolding utf8_to_utf16le
utf8_to_utf16le_latin cs small = loop_latin cs (length (bytes_of cs)) 0 small (omega arith)
