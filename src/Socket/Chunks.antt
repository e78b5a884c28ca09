-- ===== src/Socket/Chunks.antt =====
-- The received stream does not depend on how the kernel cuts it.
use mathlib.Core.List.{append_assoc}
use input.Base.{
  leb, ◌==◌, Bool-cases, Option-cases, length, drop, length-append, length-drop, ℕ, zero, suc, ◌+◌,
  ◌≤◌, ◌<◌, ◌≡◌, refl, sym, ap, ◌∙◌, inl, inr, Option, none, some, List, [], ◌∷◌, ◌++◌, arith,
}
use input.Socket.{EventRecord, magic_word, event_size, decode, findnext, take_records, receive}
use input.Socket.Framing.{
  le_of_leb, lt_of_leb, findnext_short, findnext_hit, findnext_skip, findnext_found,
  findnext_missing,
}

-- A record uses up its bytes; what is left over without one is short.
findnext_shrinks :
    (a rest : List ℕ) (r : EventRecord) → findnext a ≡ (some r, rest) → length rest < length a
findnext_shrinks [] rest r e = unfold findnext in cc
findnext_shrinks (x ∷ a) rest r e = elim (Bool-cases (leb event_size (length (x ∷ a)))) [
  | inr short ↦ cc (e, findnext_short x a (lt_of_leb _ _ short))
  | inl long ↦
      let h = le_of_leb _ _ long in
      elim (Bool-cases ((decode (x ∷ a)).magic == magic_word)) [
        | inl hit ↦
            let same : drop event_size (x ∷ a) ≡ rest = cc (e, findnext_hit x a h hit) in
            omega (arith, ap length same, length-drop event_size (x ∷ a), h)
        | inr miss ↦ omega (arith, findnext_shrinks a rest r (sym (findnext_skip x a h miss) ∙ e))
      ]
]

findnext_leaves : (a rest : List ℕ) → findnext a ≡ (none, rest) → length rest < event_size
findnext_leaves [] rest e = unfold findnext in omega (arith, ap length (some_second e))
  where
    some_second : findnext [] ≡ (none, rest) → [] ≡ rest
    some_second q = unfold findnext in ap (λ (p : Option EventRecord × List ℕ). p.1) q
findnext_leaves (x ∷ a) rest e = elim (Bool-cases (leb event_size (length (x ∷ a)))) [
  | inr short ↦
      let same : x ∷ a ≡ rest =
        ap (λ (p : Option EventRecord × List ℕ). p.1)
          (sym (findnext_short x a (lt_of_leb _ _ short)) ∙ e) in
      omega (arith, ap length same, lt_of_leb _ _ short)
  | inl long ↦
      let h = le_of_leb _ _ long in
      elim (Bool-cases ((decode (x ∷ a)).magic == magic_word)) [
        | inl hit ↦ cc (e, findnext_hit x a h hit)
        | inr miss ↦ findnext_leaves a rest (sym (findnext_skip x a h miss) ∙ e)
      ]
]

findnext_rest : (a : List ℕ) → length (findnext a).1 ≤ length a
findnext_rest [] = unfold findnext in omega arith
findnext_rest (x ∷ a) = elim (Bool-cases (leb event_size (length (x ∷ a)))) [
  | inr short ↦ rw (findnext_short x a (lt_of_leb _ _ short)) (omega arith)
  | inl long ↦
      let h = le_of_leb _ _ long in
      elim (Bool-cases ((decode (x ∷ a)).magic == magic_word)) [
        | inl hit ↦ rw (findnext_hit x a h hit) (omega (arith, length-drop event_size (x ∷ a)))
        | inr miss ↦ rw (findnext_skip x a h miss) (omega (arith, findnext_rest a))
      ]
]

-- What one round of the loop does with the result of `findnext`.
round : ℕ → Option EventRecord × List ℕ → List EventRecord × List ℕ
round n (none, rest) = ([], rest)
round n (some r, rest) = (r ∷ (take_records n rest).0, (take_records n rest).1)

round_of :
    (n : ℕ) (a : List ℕ) (o : Option EventRecord)
    → (findnext a).0 ≡ o
    → take_records (suc n) a ≡ round n (o, (findnext a).1)
unfolding take_records round
round_of n a none e = rw (e, take_records)
round_of n a (some r) e = rw (e, take_records)

take_records-round : (n : ℕ) (a : List ℕ) → take_records (suc n) a ≡ round n (findnext a)
take_records-round n a = round_of n a (findnext a).0 refl

take_found :
    (n : ℕ) (a rest : List ℕ) (r : EventRecord)
    → findnext a ≡ (some r, rest)
    → take_records (suc n) a ≡ (r ∷ (take_records n rest).0, (take_records n rest).1)
unfolding round
take_found n a rest r e = take_records-round n a ∙ ap (round n) e

take_missing :
    (n : ℕ) (a rest : List ℕ) → findnext a ≡ (none, rest) → take_records (suc n) a ≡ ([], rest)
unfolding round
take_missing n a rest e = take_records-round n a ∙ ap (round n) e

-- More fuel than bytes changes nothing.
take_records_fuel :
    (n m : ℕ) (a : List ℕ) → length a < n → length a < m → take_records n a ≡ take_records m a
take_records_fuel zero m a h k = elim h [ ]
take_records_fuel (suc n) zero a h k = elim k [ ]
take_records_fuel (suc n) (suc m) a h k = elim (Option-cases (findnext a).0) [
  | inl e ↦
      let found : findnext a ≡ (none, (findnext a).1) = λ i. (e i, (findnext a).1) in
      take_missing n a (findnext a).1 found ∙ sym (take_missing m a (findnext a).1 found)
  | inr (r, e) ↦
      let found : findnext a ≡ (some r, (findnext a).1) = λ i. (e i, (findnext a).1) in
      let less = findnext_shrinks a (findnext a).1 r found in
      take_found n a (findnext a).1 r found
      ∙ rw (take_records_fuel n m (findnext a).1 (omega (arith, less)) (omega (arith, less)))
          (sym (take_found m a (findnext a).1 r found))
]

-- The records of the first piece, and then those of what it left with the second piece behind it.
abbrev and_then : List EventRecord × List ℕ → List EventRecord × List ℕ → List EventRecord × List ℕ
and_then p q = (p.0 ++ q.0, q.1)

take_left : (n : ℕ) (a : List ℕ) → length (take_records n a).1 ≤ length a
take_left zero a = unfold take_records in omega arith
take_left (suc n) a = elim (Option-cases (findnext a).0) [
  | inl e ↦
      let found : findnext a ≡ (none, (findnext a).1) = λ i. (e i, (findnext a).1) in
      rw (take_missing n a (findnext a).1 found) (findnext_rest a)
  | inr (r, e) ↦
      let found : findnext a ≡ (some r, (findnext a).1) = λ i. (e i, (findnext a).1) in
      rw (take_found n a (findnext a).1 r found)
        (omega (arith, take_left n (findnext a).1, findnext_shrinks a (findnext a).1 r found))
]

take_records_split :
    (n m : ℕ) (a b : List ℕ)
    → length a < n
    → length (a ++ b) < m
    → take_records m (a ++ b)
      ≡ and_then (take_records n a) (take_records m ((take_records n a).1 ++ b))
take_records_split zero m a b h k = elim h [ ]
take_records_split (suc n) zero a b h k = elim k [ ]
take_records_split (suc n) (suc m) a b h k = elim (Option-cases (findnext a).0) [
  | inl e ↦
      let rest = (findnext a).1 in
      let found : findnext a ≡ (none, rest) = λ i. (e i, rest) in
      rw (take_missing n a rest found) (
        take_records-round m (a ++ b)
        ∙ ap (round m) (findnext_missing a b rest found)
        ∙ sym (take_records-round m (rest ++ b)))
  | inr (r, e) ↦
      let rest = (findnext a).1 in
      let found : findnext a ≡ (some r, rest) = λ i. (e i, rest) in
      let less = findnext_shrinks a rest r found in
      let left = (take_records n rest).1 in
      let kept = take_left n rest in
      let shorter : length (left ++ b) + length a ≡ length left + length (a ++ b) =
        omega (arith, length-append left b, length-append a b) in
      let longer : length (rest ++ b) + length a ≡ length rest + length (a ++ b) =
        omega (arith, length-append rest b, length-append a b) in
      rw (take_found n a rest r found) (
        take_found m (a ++ b) (rest ++ b) r (findnext_found a b rest r found)
        ∙ ap (λ (p : List EventRecord × List ℕ). (r ∷ p.0, p.1))
            (take_records_split n m rest b (omega (arith, less)) (omega (arith, less, shorter))
              ∙ ap (and_then (take_records n rest)) (
                  take_records_fuel m (suc m) (left ++ b) (omega (arith, less, kept, shorter))
                    (omega (arith, less, kept, shorter)))))
]

-- The bytes left over once all records are taken do not make up another.
take_records_leaves : (n : ℕ) (a : List ℕ) → length a < n → length (take_records n a).1 < event_size
take_records_leaves zero a h = elim h [ ]
take_records_leaves (suc n) a h = elim (Option-cases (findnext a).0) [
  | inl e ↦
      let found : findnext a ≡ (none, (findnext a).1) = λ i. (e i, (findnext a).1) in
      rw (take_missing n a (findnext a).1 found) (findnext_leaves a (findnext a).1 found)
  | inr (r, e) ↦
      let found : findnext a ≡ (some r, (findnext a).1) = λ i. (e i, (findnext a).1) in
      rw (take_found n a (findnext a).1 r found) (
        take_records_leaves n (findnext a).1
          (omega (arith, findnext_shrinks a (findnext a).1 r found)))
]

-- The records taken from the socket do not depend on how the kernel cuts the stream into pieces: to
-- receive two pieces one after the other yields the same records, in the same order, and leaves
-- the same bytes, as to receive them at once. This holds whatever was in the buffer before.
pub receive-append :
    (buffer a b : List ℕ)
    → receive buffer (a ++ b) ≡ (
      (receive buffer a).0 ++ (receive (receive buffer a).1 b).0,
      (receive (receive buffer a).1 b).1,
    )
unfolding receive
receive-append buffer a b =
    let c = buffer ++ a in
    let left = (take_records (length c + 1) c).1 in
    let m : ℕ = length (c ++ b) + 1 in
    let kept = take_left (length c + 1) c in
    let cut : length (left ++ b) < m =
      omega (arith, kept, length-append left b, length-append c b) in
    rw (← append_assoc buffer a b) (
      take_records_split (length c + 1) m c b (omega arith) (omega arith)
      ∙ ap (and_then (take_records (length c + 1) c))
          (take_records_fuel m (length (left ++ b) + 1) (left ++ b) cut (omega arith)))

-- After a `recv` less than a record is left over, so that the next one is offered room for bytes and a
-- result of 0 always means that the client has gone.
pub receive_room : (buffer bytes : List ℕ) → length (receive buffer bytes).1 < event_size
unfolding receive
receive_room buffer bytes =
    take_records_leaves (length (buffer ++ bytes) + 1) (buffer ++ bytes) (omega arith)
