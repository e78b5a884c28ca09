-- ===== src/Socket/Sending/Records.antt =====
-- A sequence of records, from `send_to_plugin` to the reader at the other end.
use mathlib.Core.List.{append_assoc, append-nil}
use native.Mathlib.Omega.{arith}
use input.Base.{
  if◌then◌else◌, Bool-cases, ◌>>=◌, >>=-eq-some, ℕ, ◌≡◌, refl, sym, ap, ◌∙◌, subst, inl, inr, Bool,
  true, false, Option, some, List, [], ◌∷◌, ◌++◌, arith,
}
use input.Socket.{EventRecord}
use input.Socket.Sending.Whole.{stream, Sends, send_to_plugin-Returns}
use input.Socket.Sending.{
  Progress, done, busy, broken, Plugin, is_empty, encode, Flow, send_all, send_once, answers_to,
  kill_connection, after_delayed, flowed, send_delayed_to_plugin, send_front, after_record,
  send_record, send_to_plugin,
}

-- A step that leaves an empty queue alone, and never opens a closed connection.
abbrev pub Steady : Plugin → Plugin → Type 0
Steady p q =
    (p.dev_events ≡ [] → (q.dev_events ≡ []) × (q.freed ≡ p.freed))
    × (q.connected ≡ true → p.connected ≡ true)

kill-Steady : (p q : Plugin) → kill_connection p ≡ some q → Steady p q
unfolding kill_connection
kill-Steady p q h = (λ e. ground arith, λ c. ground arith)

after_delayed-Steady :
    (g : Progress) (p : Plugin) (ok : Bool) (q : Plugin)
    → after_delayed g p ≡ some (ok, q)
    → Steady p q
after_delayed-Steady done p ok q h = (λ e. ground arith, λ c. ground arith)
after_delayed-Steady busy p ok q h = (λ e. ground arith, λ c. ground arith)
after_delayed-Steady broken p ok q h =
    let (r, killed, e) = >>=-eq-some (kill_connection p) (λ q. some (false, q)) h in
    let same : r ≡ q = cc in subst (Steady p) same (kill-Steady p r killed)

send_delayed-Steady :
    (p : Plugin) (ok : Bool) (q : Plugin) → send_delayed_to_plugin p ≡ some (ok, q) → Steady p q
unfolding send_delayed_to_plugin
send_delayed-Steady p ok q h =
    let f = send_all (answers_to p) p.partial p.wire in
    after_delayed-Steady f.progress (flowed f f.left p) ok q h

Steady-trans : (p q r : Plugin) → Steady p q → Steady q r → Steady p r
Steady-trans p q r (queue, closed) (queue', closed') = (
  λ e. let (e', f) = queue e in let (e'', f') = queue' e' in (e'', f' ∙ f),
  λ c. closed (closed' c),
)

after_record-Steady :
    (g : Progress) (f : Flow) (p : Plugin) (ok : Bool) (q : Plugin)
    → after_record (record f { progress = g }) p ≡ some (ok, q)
    → Steady p q
after_record-Steady busy f p ok q h = (λ e. ground arith, λ c. ground arith)
after_record-Steady broken f p ok q h =
    let (r, killed, e) =
      >>=-eq-some (kill_connection (flowed f p.partial p)) (λ q. some (true, q)) h in
    let same : r ≡ q = cc in subst (Steady p) same (kill-Steady (flowed f p.partial p) r killed)
after_record-Steady done f p ok q h = elim (Bool-cases (is_empty f.left)) [
  | inl all ↦ (λ e. ground arith, λ c. ground arith)
  | inr some_left ↦
      let (r, delayed, e) =
        >>=-eq-some (send_delayed_to_plugin (flowed f f.left p)) (λ r. some (true, r.1))
          (rw some_left at h) in
      let same : r.1 ≡ q = cc in
      subst (Steady p) same (send_delayed-Steady (flowed f f.left p) r.0 r.1 delayed)
]

send_front-Steady : (p : Plugin) (ok : Bool) (q : Plugin) → send_front p ≡ some (ok, q) → Steady p q
unfolding send_front
send_front-Steady p ok q h = elim (Bool-cases (is_empty p.partial)) [
  | inl e ↦
      let h' = (rw e at h) in
      let same : p ≡ q = cc in subst (Steady p) same (λ e. (e, refl), λ c. c)
  | inr e ↦ send_delayed-Steady p ok q (rw e at h)
]

then_record-Steady :
    (front : Bool) (e : EventRecord) (p : Plugin) (ok : Bool) (q : Plugin)
    → (if front then send_record e p else some (front, p)) ≡ some (ok, q)
    → Steady p q
unfolding send_record
then_record-Steady true e p ok q h =
    let f = send_once (answers_to p) (encode e) p.wire in after_record-Steady f.progress f p ok q h
then_record-Steady false e p ok q h =
    let same : p ≡ q = cc in subst (Steady p) same (λ e. (e, refl), λ c. c)

pub send_to_plugin-Steady :
    (e : EventRecord) (p : Plugin) (ok : Bool) (q : Plugin)
    → send_to_plugin e p ≡ some (ok, q)
    → Steady p q
unfolding send_to_plugin
send_to_plugin-Steady e p ok q h =
    let (r, front, rest) =
      >>=-eq-some (send_front p) (λ r. if r.0 then send_record e r.1 else some r) h in
    Steady-trans p r.1 q (send_front-Steady p r.0 r.1 front)
      (then_record-Steady r.0 e r.1 ok q rest)

abbrev pub encode_all : List EventRecord → List ℕ
encode_all [] = []
encode_all (e ∷ es) = encode e ++ encode_all es

-- The records of a list are sent one after the other: those that were reported as sent.
abbrev pub sends : List EventRecord → Plugin → Option (List EventRecord × Plugin)
sends [] p = some ([], p)
sends (e ∷ es) p =
    send_to_plugin e p >>= λ r. sends es r.1 >>= λ s. some (if r.0 then e ∷ s.0 else s.0, s.1)

appended :
    (ok : Bool) (e : EventRecord) (p q r : Plugin) (rs : List EventRecord)
    → Sends (encode e) p ok q
    → q.connected ≡ true
    → stream r ≡ stream q ++ encode_all rs
    → stream r ≡ stream p ++ encode_all (if ok then e ∷ rs else rs)
appended true e p q r rs (inl s) c h =
    h ∙ ap (λ t. t ++ encode_all rs) s ∙ append_assoc (stream p) (encode e) (encode_all rs)
appended true e p q r rs (inr (s, closed)) c h = cc
appended false e p q r rs s c h = h ∙ ap (λ t. t ++ encode_all rs) s

-- A list of records is sent, as long as the queue of device events is empty: the calls have a result,
-- and if the connection is still open at the end, exactly the records that were reported as sent
-- follow what was in the stream, whole and in their order.
pub sends-stream :
    (es : List EventRecord) (p : Plugin)
    → p.freed ≡ false
    → p.dev_events ≡ []
    → (rs : List EventRecord) × (q : Plugin) × (sends es p ≡ some (rs, q))
      × (q.connected ≡ true → (p.connected ≡ true) × (stream q ≡ stream p ++ encode_all rs))
sends-stream [] p h d = ([], p, refl, λ c. (c, sym (append-nil (stream p))))
sends-stream (e ∷ es) p h d =
    let (ok, q, sent, whole) = send_to_plugin-Returns e p h in
    let (queue, closed) = send_to_plugin-Steady e p ok q sent in
    let (d', f') = queue d in
    let (rs, r, rest, ends) = sends-stream es q (f' ∙ h) d' in
    (
      (if ok then e ∷ rs else rs),
      r,
      rw (sent, rest),
      λ c. let (c', s) = ends c in (closed c', appended ok e p q r rs whole c' s),
    )
