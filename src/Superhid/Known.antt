-- ===== src/Superhid/Known.antt =====
-- One event of a touch screen, for a host that follows.
use input.Socket.Devices.{ev_dev, dev_set}
use input.Socket.{EventRecord}
use input.Superhid.Table.{Numbered, Numbered-own}
use input.Superhid.{
  max_fingers, SuperhidReport, Digitizer, first_report, set_up, blank_report, digitizer_init,
  Written, Kind, slot, contact, sync, other, kind_of, on_event, once_set_up, process_absolute_event,
  note_dev, process_event,
}
use input.Superhid.Host.{learn, Follows, fits, on_event-Follows}
use input.Base.{
  ◌==◌, if◌then◌else◌, length, get_elem?, replicate, get_elem?-below, ℕ, ◌+◌, ◌≤◌, ◌≡◌, refl, sym,
  ap, ◌∙◌, subst, Bool, true, false, ◌&&◌, some, List, [], ◌∷◌, arith,
}

abbrev pub start : ℕ → Digitizer
start d = record digitizer_init { current_dev = d }

-- What the host starts with: no finger has touched.
abbrev pub first_table : List SuperhidReport
first_table = (once_set_up digitizer_init).reports

pub data Known (table : List SuperhidReport) (p : Digitizer) : Type 0 where
  untouched : (d : ℕ) → p ≡ start d → table ≡ first_table → Known table p
  followed : Follows table p → Known table p

Numbered-set_up : (i : ℕ) (rs : List SuperhidReport) → i + length rs ≤ 32 → Numbered i (set_up i rs)
unfolding Numbered
Numbered-set_up i [] h = _
Numbered-set_up i (r ∷ rs) h =
    (record { report_id = refl; misc = omega arith }, Numbered-set_up (i + 1) rs (omega arith))

start-Follows : (d : ℕ) → Follows first_table (once_set_up (start d))
unfolding Numbered
start-Follows d = record {
  numbered = Numbered-set_up 0 (replicate max_fingers blank_report) (omega arith);
  whole = refl;
  short = omega arith;
  others = λ v. refl;
  synced = λ x. refl;
}

-- The digitizer and the report that an event is for.
pub record Ready (e : EventRecord) (table : List SuperhidReport) (p : Digitizer) : Type 0 where
  pub set_up_as : Digitizer
  pub own : SuperhidReport
  pub processed : process_absolute_event e p ≡ some (on_event (kind_of e) e own set_up_as)
  pub follows : Follows table set_up_as
  pub got : get_elem? set_up_as.reports set_up_as.finger ≡ some own
  pub same_dev : set_up_as.current_dev ≡ p.current_dev

Follows-Ready :
    (e : EventRecord) (table : List SuperhidReport) (p : Digitizer)
    → Follows table p
    → Ready e table p
unfolding process_absolute_event
Follows-Ready e table p f =
    let (r, g) = get_elem?-below p.reports p.finger (ground arith) in
    let n = Numbered-own p.finger p.reports r f.numbered g in
    record {
      set_up_as = p;
      own = r;
      processed = rw (g, n.report_id, g) refl;
      follows = f;
      got = g;
      same_dev = refl;
    }

start-Ready : (e : EventRecord) (d : ℕ) → Ready e first_table (start d)
unfolding process_absolute_event
start-Ready e d = record {
  set_up_as = once_set_up (start d);
  own = first_report 0;
  processed = refl;
  follows = start-Follows d;
  got = refl;
  same_dev = refl;
}

pub Known-Ready :
    (e : EventRecord) (table : List SuperhidReport) (p : Digitizer)
    → Known table p
    → Ready e table p
Known-Ready e table p (followed f) = Follows-Ready e table p f
Known-Ready e table p (untouched d h h') =
    subst (λ t. Ready e t p) (sym h') (subst (Ready e first_table) (sym h) (start-Ready e d))

pub on_event-dev :
    (k : Kind) (e : EventRecord) (r : SuperhidReport) (p : Digitizer)
    → (on_event k e r p).1.current_dev ≡ p.current_dev
on_event-dev slot e r p = refl
on_event-dev contact e r p = refl
on_event-dev sync e r p = refl
on_event-dev other e r p = refl

-- No slot is out of range.
abbrev pub all_fit : List EventRecord → Bool
all_fit [] = true
all_fit (e ∷ es) = fits e && all_fit es

processed-Known :
    (e : EventRecord) (table : List SuperhidReport) (p : Digitizer)
    → Known table p
    → fits e ≡ true
    → (w : Written) × (process_absolute_event e p ≡ some w)
      × Known (learn w.0 table) w.1
      × (w.1.current_dev ≡ p.current_dev)
processed-Known e table p k h =
    let r = Known-Ready e table p k in
    let q = r.set_up_as in
    (
      on_event (kind_of e) e r.own q,
      r.processed,
      followed (on_event-Follows (kind_of e) e table q r.own r.follows r.got h),
      on_event-dev (kind_of e) e r.own q ∙ r.same_dev,
    )

-- The device that the plugin was told of last.
abbrev pub dev_after : List EventRecord → ℕ → ℕ
dev_after [] d = d
dev_after (e ∷ es) d =
    dev_after es (if e.itype == ev_dev && e.icode == dev_set then e.ivalue else d)

abbrev pub with_dev : ℕ → Digitizer → Digitizer
with_dev d q = record q { current_dev = d }

note_dev-Known :
    (b : Bool) (e : EventRecord) (table : List SuperhidReport) (p : Digitizer)
    → Known table p
    → Known table (if b then record p { current_dev = e.ivalue } else p)
note_dev-Known false e table p k = k
note_dev-Known true e table p (followed f) = followed record {
  numbered = f.numbered;
  whole = f.whole;
  short = f.short;
  others = f.others;
  synced = f.synced;
}
note_dev-Known true e table p (untouched d h h') =
    untouched e.ivalue (ap (λ (q : Digitizer). with_dev e.ivalue q) h) h'

note_dev-dev :
    (b : Bool) (e : EventRecord) (p : Digitizer)
    → (if b then record p { current_dev = e.ivalue } else p).current_dev
      ≡ (if b then e.ivalue else p.current_dev)
note_dev-dev true e p = refl
note_dev-dev false e p = refl

for_dev-Known :
    (b : Bool) (e : EventRecord) (table : List SuperhidReport) (p : Digitizer)
    → Known table p
    → fits e ≡ true
    → (w : Written) × ((if b then process_absolute_event e p else some ([], p)) ≡ some w)
      × Known (learn w.0 table) w.1
      × (w.1.current_dev ≡ p.current_dev)
for_dev-Known true e table p k h = processed-Known e table p k h
for_dev-Known false e table p k h = (([], p), refl, k, refl)

pub process_event-Known :
    (e : EventRecord) (table : List SuperhidReport) (p : Digitizer)
    → Known table p
    → fits e ≡ true
    → (w : Written) × (process_event e p ≡ some w)
      × Known (learn w.0 table) w.1
      × (w.1.current_dev ≡ dev_after (e ∷ []) p.current_dev)
unfolding process_event
process_event-Known e table p k h =
    let b = e.itype == ev_dev && e.icode == dev_set in
    let q = note_dev e p in
    let (w, e', k', d) =
      for_dev-Known (q.current_dev == 6) e table q (note_dev-Known b e table p k) h in
    (w, e', k', d ∙ note_dev-dev b e p)
