-- ===== src/Superhid/Synced.antt =====
-- After a SYN_REPORT the host has every finger where the digitizer has it; and slots out of range.
use input.Socket.Devices.{ev_dev, dev_set}
use input.Socket.{EventRecord, magic_word}
use input.Superhid.{
  max_fingers, SuperhidReport, Digitizer, digitizer_init, Written, to_slot, process_absolute_event,
  for_dev, process_event, process_all,
}
use input.Superhid.Host.{learn, learn-append, fits, learn_one}
use input.Base.{
  ◌==◌, if◌then◌else◌, and_left, and_right, get_elem?, get_elem?-past, ev_abs, abs_mt_slot, ℕ, ◌≤◌,
  ◌≡◌, refl, sym, ap, ◌∙◌, subst, true, false, ◌&&◌, none, some, List, [], ◌∷◌, ◌++◌,
}
use input.Superhid.Known.{
  first_table, Known, untouched, Known-Ready, all_fit, dev_after, with_dev, process_event-Known,
}

abbrev pub syn_event : EventRecord
syn_event = record { magic = magic_word; itype = 0; icode = 0; ivalue = 0 }

on_screen :
    (e : EventRecord) (p : Digitizer)
    → (e.itype == ev_dev && e.icode == dev_set) ≡ false
    → p.current_dev ≡ 6
    → process_event e p ≡ process_absolute_event e p
unfolding process_event
on_screen e p h h' =
    ap (λ b. for_dev e (if b then with_dev e.ivalue p else p)) h
    ∙ ap (λ d. if d == 6 then process_absolute_event e p else some ([], p)) h'

synced_now :
    (table : List SuperhidReport) (p : Digitizer)
    → Known table p
    → p.current_dev ≡ 6
    → (w : Written) × (process_all (syn_event ∷ []) p ≡ some w) × (learn w.0 table ≡ w.1.reports)
unfolding process_all
synced_now table p k h =
    let r = Known-Ready syn_event table p k in
    let q = r.set_up_as in
    let w : Written = (r.own ∷ [], record q { just_syned = true }) in
    let e : process_event syn_event p ≡ some w = on_screen syn_event p refl h ∙ r.processed in
    (w, rw (e) refl, learn_one table q r.own r.follows r.got)

synced_after :
    (es : List EventRecord) (table : List SuperhidReport) (p : Digitizer)
    → Known table p
    → all_fit es ≡ true
    → dev_after es p.current_dev ≡ 6
    → (w : Written) × (process_all (es ++ syn_event ∷ []) p ≡ some w)
      × (learn w.0 table ≡ w.1.reports)
unfolding process_all
synced_after [] table p k h h' = synced_now table p k h'
synced_after (e ∷ es) table p k h h' =
    let (w, e1, k1, d1) = process_event-Known e table p k (and_left (fits e) (all_fit es) h) in
    let (w', e2, l) =
      synced_after es (learn w.0 table) w.1 k1 (and_right (fits e) (all_fit es) h)
        (ap (dev_after es) d1 ∙ h') in
    ((w.0 ++ w'.0, w'.1), rw (e1, e2) refl, learn-append w.0 w'.0 table ∙ l)

-- Any events, none with a slot out of range, and the touch screen the device named last, then a
-- SYN_REPORT: they are all processed, and the table that the host has made of the reports it was sent, by
-- their finger, is the table of the plugin.
pub process_all-synced :
    (es : List EventRecord)
    → all_fit es ≡ true
    → dev_after es 0 ≡ 6
    → (w : Written) × (process_all (es ++ syn_event ∷ []) digitizer_init ≡ some w)
      × (learn w.0 first_table ≡ w.1.reports)
process_all-synced es h h' = synced_after es first_table digitizer_init (untouched 0 refl refl) h h'

abbrev pub slot_to : ℕ → EventRecord
slot_to n = record { magic = magic_word; itype = ev_abs; icode = abs_mt_slot; ivalue = n }

lost :
    (e : EventRecord) (p : Digitizer)
    → get_elem? p.reports p.finger ≡ none
    → process_absolute_event e p ≡ none
unfolding process_absolute_event
lost e p h = rw (h) refl

out_now :
    (table : List SuperhidReport) (p : Digitizer) (n : ℕ) (next : EventRecord)
    → Known table p
    → p.current_dev ≡ 6
    → max_fingers ≤ n
    → (next.itype == ev_dev && next.icode == dev_set) ≡ false
    → process_all (slot_to n ∷ (next ∷ [])) p ≡ none
unfolding process_all
out_now table p n next k h h' no_set =
    let r = Known-Ready (slot_to n) table p k in
    let q = r.set_up_as in
    let v = record q { finger = n; just_syned = false } in
    let e : process_event (slot_to n) p ≡ some (to_slot n r.own q) =
      on_screen (slot_to n) p refl h ∙ r.processed in
    let e' : process_event next v ≡ none =
      on_screen next v no_set (r.same_dev ∙ h)
      ∙ lost next v (get_elem?-past q.reports n (subst (λ m. m ≤ n) (sym r.follows.whole) h')) in
    rw (e, e') refl

out_after :
    (es : List EventRecord) (table : List SuperhidReport) (p : Digitizer) (n : ℕ)
    (next : EventRecord)
    → Known table p
    → all_fit es ≡ true
    → dev_after es p.current_dev ≡ 6
    → max_fingers ≤ n
    → (next.itype == ev_dev && next.icode == dev_set) ≡ false
    → process_all (es ++ slot_to n ∷ (next ∷ [])) p ≡ none
unfolding process_all
out_after [] table p n next k h h' g no_set = out_now table p n next k h' g no_set
out_after (e ∷ es) table p n next k h h' g no_set =
    let (w, e1, k1, d1) = process_event-Known e table p k (and_left (fits e) (all_fit es) h) in
    rw
      (
        e1,
        out_after es (learn w.0 table) w.1 n next k1 (and_right (fits e) (all_fit es) h)
            (ap (dev_after es) d1 ∙ h') g no_set,
      )
      refl

-- Any events with the slots in range and the touch screen the device named last, then a slot of 10 or
-- more: the next event, whatever it is but a DEV_SET, reads past the end of the array of reports.
pub process_all-out_of_range :
    (es : List EventRecord) (n : ℕ) (next : EventRecord)
    → all_fit es ≡ true
    → dev_after es 0 ≡ 6
    → max_fingers ≤ n
    → (next.itype == ev_dev && next.icode == dev_set) ≡ false
    → process_all (es ++ slot_to n ∷ (next ∷ [])) digitizer_init ≡ none
process_all-out_of_range es n next h h' g no_set =
    out_after es first_table digitizer_init n next (untouched 0 refl refl) h h' g no_set
