-- ===== src/Superhid/Host.antt =====
-- What the host knows: it keeps the last report of each finger, by the finger's number.
use input.Socket.{EventRecord}
use input.Superhid.{
  max_fingers, SuperhidReport, Digitizer, contact_moved, Kind, slot, contact, sync, other, kind_of,
  on_event,
}
use input.Superhid.Table.{
  set-set, set-get_elem?, Numbered, Numbered-own, Numbered-put, contact_moved-IsOf,
}
use input.Base.{
  ltb, if◌then◌else◌, off_on, length, get_elem?, set, length-set, ℕ, ◌/◌, ◌<◌, ◌≡◌, refl, sym, ap,
  ◌∙◌, Bool, true, false, some, List, [], ◌∷◌, ◌++◌, arith,
}

-- The number of the finger is in the upper five bits.
abbrev pub learn : List SuperhidReport → List SuperhidReport → List SuperhidReport
learn [] table = table
learn (r ∷ rs) table = learn rs (set table (r.misc / 8) r)

pub learn-append :
    (rs rs' table : List SuperhidReport) → learn (rs ++ rs') table ≡ learn rs' (learn rs table)
learn-append [] rs' table = refl
learn-append (r ∷ rs) rs' table = learn-append rs rs' (set table (r.misc / 8) r)

-- The host's table differs from the digitizer's for the finger at most, and not after a SYN_REPORT.
pub record Follows (table : List SuperhidReport) (p : Digitizer) : Type 0 where
  pub numbered : Numbered 0 p.reports
  pub whole : length p.reports ≡ max_fingers
  pub short : p.finger < max_fingers
  pub others : (v : SuperhidReport) → set table p.finger v ≡ set p.reports p.finger v
  pub synced : p.just_syned ≡ true → table ≡ p.reports

-- A contact's slot is one of the ten.
abbrev pub fits_kind : Kind → ℕ → Bool
fits_kind slot n = ltb n max_fingers
fits_kind _ n = true

abbrev pub fits : EventRecord → Bool
fits e = fits_kind (kind_of e) e.ivalue

pub learn_one :
    (table : List SuperhidReport) (p : Digitizer) (r : SuperhidReport)
    → Follows table p
    → get_elem? p.reports p.finger ≡ some r
    → learn (r ∷ []) table ≡ p.reports
learn_one table p r f g =
    let n = Numbered-own p.finger p.reports r f.numbered g in
    ap (λ i. set table i r) n.misc ∙ (f.others r ∙ set-get_elem? p.reports p.finger r g)

slot-Follows :
    (n : ℕ) (table : List SuperhidReport) (p : Digitizer) (r : SuperhidReport) (b : Bool)
    → p.just_syned ≡ b
    → Follows table p
    → get_elem? p.reports p.finger ≡ some r
    → n < max_fingers
    → Follows (learn (if b then [] else r ∷ []) table) (record p { finger = n; just_syned = false })
slot-Follows n table p r true e f g h = record {
  numbered = f.numbered;
  whole = f.whole;
  short = h;
  others = λ v. ap (λ t. set t n v) (f.synced e);
  synced = λ x. f.synced e;
}
slot-Follows n table p r false e f g h = record {
  numbered = f.numbered;
  whole = f.whole;
  short = h;
  others = λ v. ap (λ t. set t n v) (learn_one table p r f g);
  synced = λ x. learn_one table p r f g;
}

pub on_event-Follows :
    (k : Kind) (e : EventRecord) (table : List SuperhidReport) (p : Digitizer) (r : SuperhidReport)
    → Follows table p
    → get_elem? p.reports p.finger ≡ some r
    → fits_kind k e.ivalue ≡ true
    → (let w = on_event k e r p in Follows (learn w.0 table) w.1)
on_event-Follows slot e table p r f g h =
    slot-Follows e.ivalue table p r p.just_syned refl f g (ground arith)
on_event-Follows contact e table p r f g h = record {
  numbered =
      Numbered-put p.finger p.reports (contact_moved e r) f.numbered
        (contact_moved-IsOf e p.finger r (Numbered-own p.finger p.reports r f.numbered g));
  whole = length-set p.reports p.finger (contact_moved e r) ∙ f.whole;
  short = f.short;
  others = λ v. f.others v ∙ sym (set-set p.reports p.finger (contact_moved e r) v);
  synced = λ x. absurd (off_on x);
}
on_event-Follows sync e table p r f g h =
    let l = learn_one table p r f g in
    record {
      numbered = f.numbered;
      whole = f.whole;
      short = f.short;
      others = λ v. ap (λ t. set t p.finger v) l;
      synced = λ x. l;
    }
on_event-Follows other e table p r f g h = record {
  numbered = f.numbered;
  whole = f.whole;
  short = f.short;
  others = f.others;
  synced = λ x. absurd (off_on x);
}
