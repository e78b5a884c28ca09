-- ===== src/Socket/Sending/Wire.antt =====
-- The bytes of the records, read back.
use input.Socket.Sending.Whole.{stream}
use input.Socket.Sending.Records.{encode_all, sends, sends-stream}
use input.Socket.Framing.{findnext_hit}
use mathlib.Core.List.{append-nil}
use native.Mathlib.Omega.{arith}
use input.Base.{
  ◌==◌, if◌then◌else◌, ==_iff, ◌>>=◌, >>=-eq-some, length, All, ℕ, zero, suc, ◌+◌, ◌*◌, ◌^◌, ◌≤◌,
  ◌<◌, ◌≡◌, refl, sym, ap, ◌∙◌, subst, Bool, true, false, Option, none, some, List, [], ◌∷◌, ◌++◌,
  arith,
}
use input.Socket.{EventRecord, magic_word, decode, findnext, take_records, receive}
use input.Socket.Sending.{Plugin, byte_of, encode, send_to_plugin}

-- The values that the fields of a record can hold.
pub record Fits (r : EventRecord) : Type 0 where
  pub magic_ok : r.magic ≡ magic_word
  pub itype_ok : r.itype < 2 ^ 16
  pub icode_ok : r.icode < 2 ^ 16
  pub ivalue_ok : r.ivalue < 2 ^ 32

word32_of :
    (w : ℕ)
    → w < 2 ^ 32
    → byte_of 0 w + byte_of 1 w * 256 + (byte_of 2 w + byte_of 3 w * 256) * 65536 ≡ w
word32_of w h = omega arith

word16_of : (w : ℕ) → w < 2 ^ 16 → byte_of 0 w + byte_of 1 w * 256 ≡ w
word16_of w h = omega arith

decode-encode : (r : EventRecord) (rest : List ℕ) → Fits r → decode (encode r ++ rest) ≡ r
unfolding decode encode
decode-encode r rest f = ground (
  arith,
  word32_of r.magic (omega (arith, f.magic_ok)),
  word16_of r.itype f.itype_ok,
  word16_of r.icode f.icode_ok,
  word32_of r.ivalue f.ivalue_ok,
)

abbrev tail : List ℕ → List ℕ
tail [] = []
tail (b ∷ bs) = bs

magic_found :
    (r : EventRecord) (rest : List ℕ)
    → Fits r
    → ((decode (encode r ++ rest)).magic == magic_word) ≡ true
magic_found r rest f = rw (decode-encode r rest f) ((==_iff r.magic magic_word).1 f.magic_ok)

findnext-encode :
    (r : EventRecord) (rest : List ℕ) → Fits r → findnext (encode r ++ rest) ≡ (some r, rest)
unfolding encode
findnext-encode r rest f =
    findnext_hit (byte_of 0 r.magic) (tail (encode r) ++ rest) (omega arith) (magic_found r rest f)
    ∙ ap (λ d. (some d, rest)) (decode-encode r rest f)

-- A round of the loop, once it has searched.
abbrev taken : ℕ → Option EventRecord × List ℕ → List EventRecord × List ℕ
taken n s = elim s.0 [
  | none ↦ ([], s.1)
  | some r ↦ (r ∷ (take_records n s.1).0, (take_records n s.1).1)
]

take_records-encode :
    (n : ℕ) (r : EventRecord) (rest : List ℕ)
    → Fits r
    → take_records (suc n) (encode r ++ rest)
      ≡ (r ∷ (take_records n rest).0, (take_records n rest).1)
unfolding take_records
take_records-encode n r rest f = ap (taken n) (findnext-encode r rest f)

take_records-encode_all :
    (es : List EventRecord) (n : ℕ)
    → All Fits es
    → length es < n
    → take_records n (encode_all es) ≡ (es, [])
unfolding take_records findnext
take_records-encode_all [] zero f h = elim h [ ]
take_records-encode_all (e ∷ es) zero f h = elim h [ ]
take_records-encode_all [] (suc n) f h = refl
take_records-encode_all (e ∷ es) (suc n) (f, fs) h =
    take_records-encode n e (encode_all es) f
    ∙ ap (λ s. (e ∷ s.0, s.1)) (take_records-encode_all es n fs (omega arith))

length-encode_all : (es : List EventRecord) → length es ≤ length (encode_all es)
unfolding encode
length-encode_all [] = omega arith
length-encode_all (e ∷ es) = omega (arith, length-encode_all es)

-- The bytes of a list of records are read as that list, with nothing left over.
pub receive-encode_all :
    (es : List EventRecord) → All Fits es → receive [] (encode_all es) ≡ (es, [])
unfolding receive
receive-encode_all es f =
    take_records-encode_all es (length (encode_all es) + 1) f (omega (arith, length-encode_all es))

chosen-Fits :
    (ok : Bool) (e : EventRecord) (rs : List EventRecord)
    → Fits e
    → All Fits rs
    → All Fits (if ok then e ∷ rs else rs)
chosen-Fits true e rs f fs = (f, fs)
chosen-Fits false e rs f fs = fs

sends-Fits :
    (es rs : List EventRecord) (p q : Plugin)
    → sends es p ≡ some (rs, q)
    → All Fits es
    → All Fits rs
sends-Fits [] rs p q h f = let same : [] ≡ rs = cc in subst (All Fits) same tt
sends-Fits (e ∷ es) rs p q h (f, fs) =
    let (r, sent, h') =
      >>=-eq-some (send_to_plugin e p)
        (λ r. sends es r.1 >>= λ s. some (if r.0 then e ∷ s.0 else s.0, s.1)) h in
    let (s, more, h'') =
      >>=-eq-some (sends es r.1) (λ s. some (if r.0 then e ∷ s.0 else s.0, s.1)) h' in
    let same : (if r.0 then e ∷ s.0 else s.0) ≡ rs = cc in
    subst (All Fits) same (chosen-Fits r.0 e s.0 f (sends-Fits es s.0 r.1 s.1 more fs))

-- What one end of a new connection reports as sent, and no more, is what the other end reads, in the
-- same order: if the connection is still open and no part of a record is waiting to be sent. The
-- records' fields are in range, and no device event is queued.
pub sends_received :
    (es : List EventRecord) (p : Plugin)
    → p.freed ≡ false
    → p.dev_events ≡ []
    → stream p ≡ []
    → All Fits es
    → (rs : List EventRecord) × (q : Plugin) × (sends es p ≡ some (rs, q))
      × (q.connected ≡ true → q.partial ≡ [] → receive [] q.wire ≡ (rs, []))
sends_received es p h d new f =
    let (rs, q, run, ends) = sends-stream es p h d in
    (
      rs,
      q,
      run,
      λ c w.
          let taken_all : q.wire ≡ encode_all rs =
            sym (append-nil q.wire)
            ∙ ap (λ t. q.wire ++ t) (sym w)
            ∙ (ends c).1
            ∙ ap (λ t. t ++ encode_all rs) new in
          ap (receive []) taken_all ∙ receive-encode_all rs (sends-Fits es rs p q run f),
    )
