-- ===== src/Socket/Devices/Flushed.antt =====
-- socket.c, `flush_queued_dev_events`: the records that reach the plugin, and what it learns from them.
use mathlib.Core.List.{append_assoc, append-nil}
use input.Socket.Sending.Records.{send_to_plugin-Steady, encode_all}
use input.Socket.Sending.Whole.{stream, Sends, send_to_plugin-Returns}
use input.Socket.Devices.Changed.{after_flush, HasSmallSlot}
use input.Socket.Devices.{
  dev_conf, dev_reset, dev_record, mark_slot, flush_mark, flush_entries, flush_queued_dev_events,
}
use input.Socket.Sending.{DevEvent, Plugin, encode, send_to_plugin}
use input.Socket.{EventRecord}
use input.Base.{
  ◌==◌, if◌then◌else◌, Bool-cases, ◌>>=◌, >>=-eq-some, All, ℕ, ◌%◌, ◌^◌, ◌<◌, ◌≡◌, refl, sym, ap,
  ◌∙◌, inl, inr, Bool, true, false, not, ◌&&◌, ◌||◌, Option, none, some, List, [], ◌∷◌, ◌++◌, arith,
}

abbrev pub record_if : Bool → ℕ → ℕ → List EventRecord
record_if due code slot = if due then dev_record code slot ∷ [] else []

-- The records that are due for the entries, in the order of the flush.
unfoldable pub due_records : List DevEvent → List EventRecord
due_records [] = []
due_records (d ∷ ds) =
    record_if d.remove dev_reset d.slot ++ (record_if d.add dev_conf d.slot ++ due_records ds)

abbrev pub learn_code : ℕ → Bool → Bool
learn_code code known =
    if code == dev_conf then true else if code == dev_reset then false else known

-- Whether a plugin has the device `x` after a record, DEV_CONF or DEV_RESET.
abbrev pub learn_one : ℕ → EventRecord → Bool → Bool
learn_one x e known = if e.ivalue == x then learn_code e.icode known else known

unfoldable pub learn_all : ℕ → List EventRecord → Bool → Bool
learn_all x [] known = known
learn_all x (e ∷ es) known = learn_all x es (learn_one x e known)

abbrev learnt : (b r a known : Bool) → Bool
learnt b r a known =
    let k = if r then (if b then learn_code dev_reset known else known) else known in
    if a then (if b then learn_code dev_conf k else k) else k

learnt_lem :
    (b r a known : Bool) → learnt b r a known ≡ (if b then a || (not r && known) else known)
learnt_lem true true true known = refl
learnt_lem true true false known = refl
learnt_lem true false true known = refl
learnt_lem true false false known = refl
learnt_lem false true true known = refl
learnt_lem false true false known = refl
learnt_lem false false true known = refl
learnt_lem false false false known = refl

learn_both :
    (x n : ℕ) (r a : Bool) (es : List EventRecord) (known : Bool)
    → learn_all x (record_if r dev_reset n ++ (record_if a dev_conf n ++ es)) known
      ≡ learn_all x es (learnt (n % 2 ^ 32 == x) r a known)
unfolding learn_all
learn_both x n true true es known = refl
learn_both x n true false es known = refl
learn_both x n false true es known = refl
learn_both x n false false es known = refl

learn_entry :
    (x n : ℕ) (r a : Bool) (es : List EventRecord) (known : Bool)
    → n < 256
    → learn_all x (record_if r dev_reset n ++ (record_if a dev_conf n ++ es)) known
      ≡ learn_all x es (if n == x then a || (not r && known) else known)
learn_entry x n r a es known small =
    let own : n % 2 ^ 32 ≡ n = omega (arith, small) in
    learn_both x n r a es known
    ∙ ap (λ m. learn_all x es (learnt (m == x) r a known)) own
    ∙ ap (learn_all x es) (learnt_lem (n == x) r a known)

pub learn_all-due_records :
    (x : ℕ) (ds : List DevEvent) (known : Bool)
    → All HasSmallSlot ds
    → learn_all x (due_records ds) known ≡ after_flush x ds known
unfolding learn_all due_records after_flush
learn_all-due_records x [] known h = refl
learn_all-due_records x (d ∷ ds) known (small, rest) =
    learn_entry x d.slot d.remove d.add (due_records ds) known small
    ∙ learn_all-due_records x ds _ rest

-- What a call that goes on sent.
abbrev DidSend : List EventRecord → Plugin → Plugin → Type 0
DidSend es p q =
    (q.freed ≡ false)
    × (q.connected ≡ true → (p.connected ≡ true) × (stream q ≡ stream p ++ encode_all es))

abbrev plugin_or : Plugin → Option (Bool × Plugin) → Plugin
plugin_or p none = p
plugin_or p (some r) = r.1

-- The mark is cleared, where the record was sent.
abbrev clear_mark : DevEvent → List DevEvent → Bool × Plugin → Option (Bool × Plugin)
clear_mark d ds r =
    if r.0 then (mark_slot r.1 >>= λ q. some (true, record q { dev_events = d ∷ ds })) else some r

whole_sent :
    (e : EventRecord) (p q : Plugin)
    → Sends (encode e) p true q
    → q.connected ≡ true
    → stream q ≡ stream p ++ (encode e ++ [])
whole_sent e p q (inl s) c = s ∙ ap (λ t. stream p ++ t) (sym (append-nil (encode e)))
whole_sent e p q (inr (s, closed)) c = cc

marked-DidSend :
    (e : EventRecord) (d : DevEvent) (ds : List DevEvent) (p : Plugin) (ok : Bool) (q r : Plugin)
    → Sends (encode e) p ok q
    → (q.connected ≡ true → p.connected ≡ true)
    → clear_mark d ds (ok, q) ≡ some (true, r)
    → DidSend (e ∷ []) p r
marked-DidSend e d ds p false q r s live h = cc
marked-DidSend e d ds p true q r s live h = elim (Bool-cases q.freed) [
  | inl gone ↦ let m : clear_mark d ds (true, q) ≡ none = rw gone refl in cc
  | inr kept ↦
      let m : clear_mark d ds (true, q) ≡ some (true, record q { dev_events = d ∷ ds }) =
        rw kept refl in
      let same : record q { dev_events = d ∷ ds } ≡ r = ap (plugin_or r) (sym m ∙ h) in
      (
        ap (λ q. q.freed) (sym same) ∙ kept,
        λ c.
            let c' : q.connected ≡ true = ap (λ q. q.connected) same ∙ c in
            (live c', ap stream (sym same) ∙ whole_sent e p q s c'),
      )
]

flush_mark-DidSend :
    (due : Bool) (code : ℕ) (d : DevEvent) (ds : List DevEvent) (p r : Plugin)
    → p.freed ≡ false
    → flush_mark due code d ds p ≡ some (true, r)
    → DidSend (record_if due code d.slot) p r
unfolding flush_mark
flush_mark-DidSend false code d ds p r h run =
    let same : p ≡ r = ap (plugin_or r) run in
    (
      ap (λ q. q.freed) (sym same) ∙ h,
      λ c. (ap (λ q. q.connected) same ∙ c, ap stream (sym same) ∙ sym (append-nil (stream p))),
    )
flush_mark-DidSend true code d ds p r h run =
    let e = dev_record code d.slot in
    let (ok, q, sent, whole) = send_to_plugin-Returns e p h in
    let (queue, live) = send_to_plugin-Steady e p ok q sent in
    let m : (send_to_plugin e p >>= λ s. clear_mark d ds s) ≡ clear_mark d ds (ok, q) =
      ap (λ o. o >>= λ s. clear_mark d ds s) sent in
    marked-DidSend e d ds p ok q r whole live (sym m ∙ run)

encode_all-append :
    (es es' : List EventRecord) → encode_all (es ++ es') ≡ encode_all es ++ encode_all es'
encode_all-append [] es' = refl
encode_all-append (e ∷ es) es' =
    ap (λ t. encode e ++ t) (encode_all-append es es')
    ∙ sym (append_assoc (encode e) (encode_all es) (encode_all es'))

DidSend-trans :
    (es es' : List EventRecord) (p q r : Plugin)
    → DidSend es p q
    → DidSend es' q r
    → DidSend (es ++ es') p r
DidSend-trans es es' p q r (f, s) (f', s') = (
  f',
  λ c.
      let (live', at') = s' c in
      let (live, at) = s live' in
      (
        live,
        at'
            ∙ ap (λ t. t ++ encode_all es') at
            ∙ append_assoc (stream p) (encode_all es) (encode_all es')
            ∙ ap (λ t. stream p ++ t) (sym (encode_all-append es es')),
      ),
)

goes_on :
    (r : Bool × Plugin) (o : Option (Bool × Plugin)) (q : Plugin)
    → (if r.0 then o else some r) ≡ some (true, q)
    → (r ≡ (true, r.1)) × (o ≡ some (true, q))
goes_on (true, p) o q h = (refl, h)
goes_on (false, p) o q h = cc

pub flush_entries-DidSend :
    (ds : List DevEvent) (p q : Plugin)
    → p.freed ≡ false
    → flush_entries ds p ≡ some (true, q)
    → DidSend (due_records ds) p q
unfolding flush_entries due_records
flush_entries-DidSend [] p q h run =
    let same : p ≡ q = ap (plugin_or q) run in
    (
      ap (λ q. q.freed) (sym same) ∙ h,
      λ c. (ap (λ q. q.connected) same ∙ c, ap stream (sym same) ∙ sym (append-nil (stream p))),
    )
flush_entries-DidSend (d ∷ ds) p q h run =
    let after_add = λ (s : Bool × Plugin).
      if s.0 then flush_entries ds (record s.1 { dev_events = ds }) else some s in
    let after_remove = λ (r : Bool × Plugin).
      if r.0
      then (flush_mark d.add dev_conf (record d { remove = false; add = false }) ds r.1
          >>= after_add)
      else some r in
    let (r, removed, run1) =
      >>=-eq-some (flush_mark d.remove dev_reset (record d { remove = false }) ds p) after_remove
        run in
    let (on, run2) = goes_on r _ q run1 in
    let (s, added, run3) = >>=-eq-some (flush_mark d.add dev_conf _ ds r.1) after_add run2 in
    let (on', run4) = goes_on s _ q run3 in
    let first = flush_mark-DidSend d.remove dev_reset _ ds p r.1 h (removed ∙ ap some on) in
    let second = flush_mark-DidSend d.add dev_conf _ ds r.1 s.1 first.0 (added ∙ ap some on') in
    let third = flush_entries-DidSend ds (record s.1 { dev_events = ds }) q second.0 run4 in
    DidSend-trans _ _ p r.1 q first (DidSend-trans _ _ r.1 s.1 q second third)

-- Where the whole queue was flushed, the plugin got the records that were due.
pub flush_queued_dev_events-DidSend :
    (p q : Plugin)
    → p.freed ≡ false
    → flush_queued_dev_events p ≡ some (true, q)
    → q.connected ≡ true
    → stream q ≡ stream p ++ encode_all (due_records p.dev_events)
unfolding flush_queued_dev_events
flush_queued_dev_events-DidSend p q h run c =
    let m : (mark_slot p >>= λ q. flush_entries q.dev_events q) ≡ flush_entries p.dev_events p =
      rw h refl in
    ((flush_entries-DidSend p.dev_events p q h (sym m ∙ run)).1 c).1
