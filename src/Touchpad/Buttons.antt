-- ===== src/Touchpad/Buttons.antt =====
-- The way of a button through a packet.
use input.Touchpad.Clicks.{handle_button_clicks}
use input.Touchpad.Packets.{
  process_clicks, Assembly, begin, set_bit, on_key, with_packet, finish, handle_touchpad_event,
}
use input.Touchpad.{
  btn_task, Packet, Limits, Pad, reset_touchpad_packet, key_event, sync, event_button_change,
}
use input.Base.{
  leb, ◌==◌, if◌then◌else◌, ℤ, pos, is_zero, Event, btn_left, ℕ, zero, suc, ◌+◌, ◌-◌, ◌*◌, ◌<◌, ◌≡◌,
  refl, ap, subst, Bool, true, false, List, [], ◌∷◌, ◌++◌, arith,
}

-- What is sent for a button alone in a packet: `up` is whether it is released.
abbrev pub sent_for : ℕ → Bool → List Event
sent_for b up =
    if b == 7 then [] else key_event (btn_left + b) (if up then pos 0 else pos 1) ∷ sync ∷ []

below_8 : (P : ℕ → Type 0) → P 0 × P 1 × P 2 × P 3 × P 4 × P 5 × P 6 × P 7 → (b : ℕ) → b < 8 → P b
below_8 P (p0, p1, p2, p3, p4, p5, p6, p7) zero h = p0
below_8 P (p0, p1, p2, p3, p4, p5, p6, p7) (suc zero) h = p1
below_8 P (p0, p1, p2, p3, p4, p5, p6, p7) (suc (suc zero)) h = p2
below_8 P (p0, p1, p2, p3, p4, p5, p6, p7) (suc (suc (suc zero))) h = p3
below_8 P (p0, p1, p2, p3, p4, p5, p6, p7) (suc (suc (suc (suc zero)))) h = p4
below_8 P (p0, p1, p2, p3, p4, p5, p6, p7) (suc (suc (suc (suc (suc zero))))) h = p5
below_8 P (p0, p1, p2, p3, p4, p5, p6, p7) (suc (suc (suc (suc (suc (suc zero)))))) h = p6
below_8 P (p0, p1, p2, p3, p4, p5, p6, p7) (suc (suc (suc (suc (suc (suc (suc b))))))) h =
    subst P (omega arith) p7

one_bit :
    (b : ℕ) (up : Bool)
    → b < 8
    → handle_button_clicks (set_bit (2 * b + (if up then 1 else 0)) 0) ≡ sent_for b up
unfolding handle_button_clicks event_button_change
one_bit b true h =
    below_8 (λ b. handle_button_clicks (set_bit (2 * b + 1) 0) ≡ sent_for b true)
      (refl, refl, refl, refl, refl, refl, refl, refl) b h
one_bit b false h =
    below_8 (λ b. handle_button_clicks (set_bit (2 * b + 0) 0) ≡ sent_for b false)
      (refl, refl, refl, refl, refl, refl, refl, refl) b h

on_key_button :
    (b : ℕ) (v : ℤ) (tp : Packet)
    → b < 8
    → on_key (key_event (btn_left + b) v) tp
      ≡ record tp { button_mask = set_bit (2 * b + (if is_zero v then 1 else 0)) tp.button_mask }
on_key_button b v tp h =
    let from : leb btn_left (btn_left + b) ≡ true = ground arith in
    let to : leb (btn_left + b) btn_task ≡ true = ground arith in
    let offset : btn_left + b - btn_left ≡ b = omega arith in rw (from, to, offset) refl

process_clicks_off :
    (above below : Limits → ℤ → Bool) (tp : Packet) (ts : Pad)
    → ts.limits.is_clickpad ≡ false
    → ts.touchpad_off ≡ true
    → process_clicks above below tp ts ≡ (handle_button_clicks tp.button_mask, ts)
unfolding process_clicks
process_clicks_off above below tp ts h h' = rw (h, h') refl

-- The packet that an assembly starts with, and the assembly with a packet in the making.
abbrev fresh : Assembly → Packet
fresh a = reset_touchpad_packet a.pad.limits a.packet

abbrev making : Packet → Assembly → Assembly
making tp a = record a { packet = tp; sync_recd = false }

begin_new : (a : Assembly) → a.sync_recd ≡ true → begin a ≡ making (fresh a) a
begin_new a new = rw new refl

key_step :
    (above below : Limits → ℤ → Bool) (b : ℕ) (v : ℤ) (a : Assembly)
    → a.sync_recd ≡ true
    → handle_touchpad_event above below (key_event (btn_left + b) v) a
      ≡ ([], making (on_key (key_event (btn_left + b) v) (fresh a)) a)
unfolding handle_touchpad_event
key_step above below b v a new =
    ap (λ z. ([], with_packet (on_key (key_event (btn_left + b) v) z.packet) z)) (begin_new a new)

report_step :
    (above below : Limits → ℤ → Bool) (tp : Packet) (a : Assembly)
    → a.pad.limits.is_clickpad ≡ false
    → a.pad.touchpad_off ≡ true
    → handle_touchpad_event above below sync (making tp a)
      ≡ finish (making tp a) (handle_button_clicks tp.button_mask, a.pad)
unfolding handle_touchpad_event
report_step above below tp a plain off =
    ap (finish (making tp a)) (process_clicks_off above below tp a.pad plain off)

-- A button of a touchpad that is switched off, alone in its packet: it is pressed or released with a
-- SYN_REPORT, if it is not BTN_TASK, which the packet has a place for but which is not sent; the rest
-- of the touchpad does not change.
pub button_passed :
    (above below : Limits → ℤ → Bool) (b : ℕ) (v : ℤ) (a : Assembly)
    → b < 8
    → a.sync_recd ≡ true
    → a.pad.limits.is_clickpad ≡ false
    → a.pad.touchpad_off ≡ true
    → let key = handle_touchpad_event above below (key_event (btn_left + b) v) a in
      let report = handle_touchpad_event above below sync key.1 in
      (key.0 ++ report.0 ≡ sent_for b (is_zero v)) × (report.1.pad ≡ a.pad)
unfolding reset_touchpad_packet
button_passed above below b v a h new plain off =
    rw
      (
        key_step above below b v a new,
        on_key_button b v (fresh a) h,
        report_step above below
            (record (fresh a) { button_mask = set_bit (2 * b + (if is_zero v then 1 else 0)) 0 }) a
            plain off,
      )
      (one_bit b (is_zero v) h, refl)
