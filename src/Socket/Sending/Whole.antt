-- ===== src/Socket/Sending/Whole.antt =====
-- No record is torn: what the plugin reads is made of whole records.
use mathlib.Core.List.{append_assoc, append-nil}
use input.Base.{
  leb, if◌then◌else◌, Bool-cases, ◌>>=◌, length, take, drop, take-append-drop, ℕ, suc, ◌≡◌, refl,
  sym, ap, ◌∙◌, ◌≢◌, ◌⊎◌, inl, inr, Bool, true, false, Option, none, some, List, [], ◌∷◌, ◌++◌,
}
use input.Socket.{EventRecord}
use input.Socket.Sending.{
  Answer, took, interrupted, would_block, failed, Progress, done, busy, broken, Plugin, is_empty,
  encode, Flow, send_all, send_once, answers_to, kill_connection, after_delayed, flowed,
  send_delayed_to_plugin, send_front, after_record, send_record, send_to_plugin,
}

-- What the kernel has taken, and what is still to follow it.
abbrev pub stream : Plugin → List ℕ
stream p = p.wire ++ p.partial

abbrev Keeps : List ℕ → List ℕ → Flow → Type 0
Keeps bs w f = (f.wire ++ f.left ≡ w ++ bs) × (f.progress ≡ done → f.left ≡ [])

send_all-Keeps : (rs : List Answer) (bs w : List ℕ) → Keeps bs w (send_all rs bs w)
unfolding send_all
send_all-Keeps [] bs w = (refl, λ h. cc)
send_all-Keeps (interrupted ∷ rs) bs w = send_all-Keeps rs bs w
send_all-Keeps (would_block ∷ rs) bs w = (refl, λ h. cc)
send_all-Keeps (failed ∷ rs) bs w = (refl, λ h. cc)
send_all-Keeps (took n ∷ rs) bs w = elim (Bool-cases (leb (length bs) (suc n))) [
  | inl all ↦ rw all (append-nil (w ++ bs), λ h. refl)
  | inr some_left ↦
      let (kept, ended) = send_all-Keeps rs (drop (suc n) bs) (w ++ take (suc n) bs) in
      rw some_left (
        kept
            ∙ append_assoc w (take (suc n) bs) (drop (suc n) bs)
            ∙ ap (λ t. w ++ t) (take-append-drop (suc n) bs),
        ended,
      )
]

-- Before any byte of a record is taken, none is.
abbrev Starts : List ℕ → List ℕ → Flow → Type 0
Starts bs w f = (f.progress ≡ done → f.wire ++ f.left ≡ w ++ bs) × (f.progress ≢ done → f.wire ≡ w)

send_once-Starts : (rs : List Answer) (bs w : List ℕ) → Starts bs w (send_once rs bs w)
unfolding send_once
send_once-Starts [] bs w = (λ h. cc, λ h. refl)
send_once-Starts (interrupted ∷ rs) bs w = send_once-Starts rs bs w
send_once-Starts (would_block ∷ rs) bs w = (λ h. cc, λ h. refl)
send_once-Starts (failed ∷ rs) bs w = (λ h. cc, λ h. refl)
send_once-Starts (took n ∷ rs) bs w = (
  λ h.
      append_assoc w (take (suc n) bs) (drop (suc n) bs)
      ∙ ap (λ t. w ++ t) (take-append-drop (suc n) bs),
  λ h. absurd (h refl),
)

abbrev Killed : Plugin → Plugin → Type 0
Killed p q = (q.wire ≡ p.wire) × (q.partial ≡ p.partial) × (q.connected ≡ false)

kill-Killed :
    (p : Plugin) → p.freed ≡ false → (q : Plugin) × (kill_connection p ≡ some q) × Killed p q
unfolding kill_connection
kill-Killed p h = elim (Bool-cases (is_empty p.dev_events)) [
  | inl e ↦ (record p { connected = false; src = none }, rw e, (refl, refl, refl))
  | inr e ↦
      (record p { connected = false; src = none; freed = true }, rw (e, h), (refl, refl, refl))
]

-- A step that neither adds to the stream nor, where it succeeds, leaves bytes behind.
abbrev Flushes : Plugin → Option (Bool × Plugin) → Type 0
Flushes p o =
    (ok : Bool) × (q : Plugin) × (o ≡ some (ok, q))
    × (stream q ≡ stream p)
    × (ok ≡ true → (q.partial ≡ []) × (q.freed ≡ false))

after_delayed-Flushes :
    (g : Progress) (f : Flow) (p : Plugin)
    → f.progress ≡ g
    → p.freed ≡ false
    → Keeps p.partial p.wire f
    → Flushes p (after_delayed g (flowed f f.left p))
after_delayed-Flushes done f p e h (kept, ended) =
    (true, flowed f f.left p, refl, kept, λ _. (ended e, h))
after_delayed-Flushes busy f p e h (kept, ended) = (false, flowed f f.left p, refl, kept, λ u. cc)
after_delayed-Flushes broken f p e h (kept, ended) =
    let (q, killed, (w, l, c)) = kill-Killed (flowed f f.left p) h in
    (false, q, rw killed, rw (w, l) kept, λ u. cc)

send_delayed-Flushes : (p : Plugin) → p.freed ≡ false → Flushes p (send_delayed_to_plugin p)
unfolding send_delayed_to_plugin
send_delayed-Flushes p h =
    let f = send_all (answers_to p) p.partial p.wire in
    after_delayed-Flushes f.progress f p refl h (send_all-Keeps (answers_to p) p.partial p.wire)

is_empty_nil {ℓ} : {A : Type ℓ} (xs : List A) → is_empty xs ≡ true → xs ≡ []
is_empty_nil [] h = refl
is_empty_nil (x ∷ xs) h = cc

send_front-Flushes : (p : Plugin) → p.freed ≡ false → Flushes p (send_front p)
unfolding send_front
send_front-Flushes p h = elim (Bool-cases (is_empty p.partial)) [
  | inl e ↦ (true, p, rw e, refl, λ _. (is_empty_nil p.partial e, h))
  | inr e ↦ rw e (send_delayed-Flushes p h)
]

-- What a call that is to send the bytes `bs` did to the stream: it reports a failure and the stream
-- is as it was, or a success, and then it has all of them, or the connection is closed and it has none.
abbrev pub Sends : List ℕ → Plugin → Bool → Plugin → Type 0
Sends bs p true q = (stream q ≡ stream p ++ bs) ⊎ ((stream q ≡ stream p) × (q.connected ≡ false))
Sends bs p false q = stream q ≡ stream p

abbrev Returns : List ℕ → Plugin → Option (Bool × Plugin) → Type 0
Returns bs p o = (ok : Bool) × (q : Plugin) × (o ≡ some (ok, q)) × Sends bs p ok q

after_record-Returns :
    (g : Progress) (f : Flow) (bs : List ℕ) (p : Plugin)
    → f.progress ≡ g
    → p.freed ≡ false
    → p.partial ≡ []
    → Starts bs p.wire f
    → Returns bs p (after_record (record f { progress = g }) p)
after_record-Returns busy f bs p e h n (begun, none_yet) =
    (false, flowed f p.partial p, refl, ap (λ w. w ++ p.partial) (none_yet (λ d. cc)))
after_record-Returns broken f bs p e h n (begun, none_yet) =
    let (q, killed, (w, l, c)) = kill-Killed (flowed f p.partial p) h in
    (true, q, rw killed, inr (rw (w, l, none_yet (λ d. cc)), c))
after_record-Returns done f bs p e h n (begun, none_yet) =
    let begins : f.wire ++ f.left ≡ stream p ++ bs = rw (n, append-nil p.wire) (begun e) in
    elim (Bool-cases (is_empty f.left)) [
      | inl all ↦ (
        true,
        flowed f p.partial p,
        rw all,
        inl (ap (λ t. f.wire ++ t) (n ∙ sym (is_empty_nil f.left all)) ∙ begins),
      )
      | inr some_left ↦
          let (ok, q, sent, same, rest) = send_delayed-Flushes (flowed f f.left p) h in
          (true, q, rw (some_left, sent), inl (same ∙ begins))
    ]

send_record-Returns :
    (e : EventRecord) (p : Plugin)
    → p.freed ≡ false
    → p.partial ≡ []
    → Returns (encode e) p (send_record e p)
unfolding send_record
send_record-Returns e p h n =
    let f = send_once (answers_to p) (encode e) p.wire in
    after_record-Returns f.progress f (encode e) p refl h n
      (send_once-Starts (answers_to p) (encode e) p.wire)

Sends-from :
    (bs : List ℕ) (p q : Plugin) (ok : Bool) (r : Plugin)
    → stream q ≡ stream p
    → Sends bs q ok r
    → Sends bs p ok r
Sends-from bs p q true r same h = rw (← same) h
Sends-from bs p q false r same h = h ∙ same

-- `send_to_plugin` has a result as long as the queue's memory is not freed, and no record is torn: where
-- it reports a failure, the bytes taken and those put aside are what they were; where it reports a
-- success, the whole record follows them, or the connection is closed and nothing of it does.
pub send_to_plugin-Returns :
    (e : EventRecord) (p : Plugin)
    → p.freed ≡ false
    → (ok : Bool) × (q : Plugin) × (send_to_plugin e p ≡ some (ok, q)) × Sends (encode e) p ok q
unfolding send_to_plugin
send_to_plugin-Returns e p h = go (send_front-Flushes p h)
  where
    go :
        Flushes p (send_front p)
        → Returns (encode e) p (send_front p >>= λ r. if r.0 then send_record e r.1 else some r)
    go (false, q, front, same, _) = (false, q, rw front, same)
    go (true, q, front, same, more) =
        let (empty, live) = more refl in
        let (ok, r, sent, whole) = send_record-Returns e q live empty in
        (ok, r, rw (front, sent), Sends-from (encode e) p q ok r same whole)
