-- ===== src/Vkbd/Moves.antt =====
-- xen_event.c, `xen_event_send`: what the events before a SYN_REPORT leave on the axes and what keys they
-- send.
use mathlib.Core.List.{append_assoc}
use input.Vkbd.{rel_x, rel_y, wheel, key, Message, Axes, Motions, negated, xen_event_told}
use input.Base.{
  leb, ◌==◌, if◌then◌else◌, Bool-cases, off_on, and_left, and_right, ℤ, pos, is_zero, Event, ev_syn,
  ev_key, ev_rel, ev_abs, syn_report, ℕ, ◌+◌, ◌≡◌, refl, sym, ap, ◌∙◌, inl, inr, Bool, true, false,
  not, ◌&&◌, ◌||◌, Option, none, some, List, [], ◌∷◌, ◌++◌, arith,
}

-- The last value of the events that pass a test.
abbrev pub last_of : (Event → Bool) → List Event → Option ℤ
last_of p [] = none
last_of p (e ∷ es) = elim (last_of p es) [
  | some v ↦ some v
  | none ↦ if p e then some e.value else none
]

abbrev pub or_default : ℤ → Option ℤ → ℤ
or_default d none = d
or_default d (some v) = v

abbrev pub negated_in : Option ℤ → Option ℤ
negated_in none = none
negated_in (some v) = some (negated v)

-- A value on the axis `code` of the events of type `t`.
abbrev pub on_axis : ℕ → ℕ → Event → Bool
on_axis t code e = e.type == t && e.code == code

abbrev pub motions_in : ℕ → List Event → ℕ
motions_in t [] = 0
motions_in t (e ∷ es) = (if e.type == t then 1 else 0) + motions_in t es

-- Where the events of a type leave the axes.
abbrev pub axes_after : ℕ → List Event → Axes → Axes
axes_after t es a = record {
  x = or_default a.x (last_of (on_axis t rel_x) es);
  y = or_default a.y (last_of (on_axis t rel_y) es);
  z = or_default a.z (negated_in (last_of (on_axis t wheel) es));
  count = a.count + motions_in t es;
}

abbrev pub is_end : Event → Bool
is_end e = e.type == ev_syn && e.code == syn_report

abbrev pub no_report : List Event → Bool
no_report [] = true
no_report (e ∷ es) = not (is_end e) && no_report es

-- BTN_LEFT to BTN_TASK are for the absolute device.
abbrev pub keys_in : Event → List Message
keys_in e =
    if e.type == ev_key
    then record {
      absolute = leb 0x110 e.code && leb e.code 0x117;
      event = key (not (is_zero e.value)) e.code;
    }
      ∷ []
    else []

-- The keys among the events.
abbrev pub keys_of : List Event → List Message
keys_of [] = []
keys_of (e ∷ es) = keys_in e ++ keys_of es

-- The events one after another.
unfoldable pub tell_all : List Event → Motions → List Message × Motions
tell_all [] m = ([], m)
tell_all (e ∷ es) m =
    let (ms, m') = xen_event_told e m in let (ms', m'') = tell_all es m' in (ms ++ ms', m'')

false_when_not : (b : Bool) → not b ≡ true → b ≡ false
false_when_not true h = absurd (off_on h)
false_when_not false h = refl

pub double_negation : (b : Bool) → not (not b) ≡ b
double_negation true = refl
double_negation false = refl

pub neither : (a b : Bool) → (a || b) ≡ false → (a ≡ false) × (b ≡ false)
neither true b h = cc
neither false b h = (refl, h)

or_default-last :
    (o : Option ℤ) (b : Bool) (v d : ℤ)
    → or_default (if b then v else d) o
      ≡ or_default d (elim o [ some u ↦ some u | none ↦ if b then some v else none ])
or_default-last (some u) b v d = refl
or_default-last none true v d = refl
or_default-last none false v d = refl

negated-last :
    (o : Option ℤ) (b : Bool) (v d : ℤ)
    → or_default (if b then negated v else d) (negated_in o)
      ≡ or_default d (negated_in (elim o [ some u ↦ some u | none ↦ if b then some v else none ]))
negated-last (some u) b v d = refl
negated-last none true v d = refl
negated-last none false v d = refl

count-if : (b : Bool) (n k : ℕ) → (if b then n + 1 else n) + k ≡ n + ((if b then 1 else 0) + k)
count-if true n k = omega arith
count-if false n k = omega arith

-- One event of a kind, where it is one.
abbrev axes_step : Bool → Event → Axes → Axes
axes_step b e a = record {
  x = if b && e.code == rel_x then e.value else a.x;
  y = if b && e.code == rel_y then e.value else a.y;
  z = if b && e.code == wheel then negated e.value else a.z;
  count = if b then a.count + 1 else a.count;
}

abbrev pub axes_of : ℤ → ℤ → ℤ → ℕ → Axes
axes_of x y z n = record { x = x; y = y; z = z; count = n }

axes_after-step :
    (t : ℕ) (e : Event) (es : List Event) (a : Axes)
    → axes_after t es (axes_step (e.type == t) e a) ≡ axes_after t (e ∷ es) a
axes_after-step k e es a =
    let b = e.type == k in
    let s = axes_step b e a in
    let t = axes_after k (e ∷ es) a in
    let u = axes_after k es s in
    ap (λ x. axes_of x u.y u.z u.count)
      (or_default-last (last_of (on_axis k rel_x) es) (b && e.code == rel_x) e.value a.x)
    ∙ (ap (λ y. axes_of t.x y u.z u.count)
          (or_default-last (last_of (on_axis k rel_y) es) (b && e.code == rel_y) e.value a.y)
        ∙ (ap (λ z. axes_of t.x t.y z u.count)
              (negated-last (last_of (on_axis k wheel) es) (b && e.code == wheel) e.value a.z)
            ∙ ap (λ n. axes_of t.x t.y t.z n) (count-if b a.count (motions_in k es))))

abbrev pub motions_of : Axes → Axes → Motions
motions_of r a = record { relative = r; absolute = a }

abbrev one_told : Event → Motions → List Message × Motions
one_told e m = (
  keys_in e,
  motions_of (axes_step (e.type == ev_rel) e m.relative)
      (axes_step (e.type == ev_abs) e m.absolute),
)

told_lem : (e : Event) (m : Motions) → not (is_end e) ≡ true → xen_event_told e m ≡ one_told e m
unfolding xen_event_told
told_lem e m h = elim (Bool-cases (e.type == ev_key)) [
  | inl k ↦
      let r : e.type == ev_rel ≡ false = ground (arith, k) in
      let a : e.type == ev_abs ≡ false = ground (arith, k) in rw (k, r, a) refl
  | inr k ↦ elim (Bool-cases (e.type == ev_rel)) [
    | inl r ↦ let a : e.type == ev_abs ≡ false = ground (arith, r) in rw (k, r, a) refl
    | inr r ↦ elim (Bool-cases (e.type == ev_abs)) [
      | inl a ↦ rw (k, r, a) refl
      | inr a ↦ let s : is_end e ≡ false = false_when_not (is_end e) h in rw (k, r, a, s) refl
    ]
  ]
]

abbrev pub motions_after : List Event → Motions → Motions
motions_after es m = motions_of (axes_after ev_rel es m.relative) (axes_after ev_abs es m.absolute)

axes_after-nil : (t : ℕ) (a : Axes) → a ≡ axes_after t [] a
axes_after-nil t a = ap (λ n. axes_of a.x a.y a.z n) (omega arith)

pub before_report :
    (es : List Event) (m : Motions)
    → no_report es ≡ true
    → tell_all es m ≡ (keys_of es, motions_after es m)
unfolding tell_all
before_report [] m h =
    ap (λ r. ([], motions_of r m.absolute)) (axes_after-nil ev_rel m.relative)
    ∙ ap (λ a. ([], motions_of (axes_after ev_rel [] m.relative) a))
        (axes_after-nil ev_abs m.absolute)
before_report (e ∷ es) m h =
    let m1 = (one_told e m).1 in
    let told = told_lem e m (and_left (not (is_end e)) (no_report es) h) in
    let rest = before_report es m1 (and_right (not (is_end e)) (no_report es) h) in
    let ms = keys_of (e ∷ es) in
    let r = axes_after-step ev_rel e es m.relative in
    let a = axes_after-step ev_abs e es m.absolute in
    ap (λ (w : List Message × Motions). (w.0 ++ (tell_all es w.1).0, (tell_all es w.1).1)) told
    ∙ (ap (λ (w : List Message × Motions). (keys_in e ++ w.0, w.1)) rest
        ∙ (ap (λ x. (ms, motions_of x (axes_after ev_abs es m1.absolute))) r
            ∙ ap (λ x. (ms, motions_of (axes_after ev_rel (e ∷ es) m.relative) x)) a))

pub tell_all-append :
    (es es' : List Event) (m : Motions)
    → tell_all (es ++ es') m ≡ (
      (tell_all es m).0 ++ (tell_all es' (tell_all es m).1).0,
      (tell_all es' (tell_all es m).1).1,
    )
unfolding tell_all
tell_all-append [] es' m = refl
tell_all-append (e ∷ es) es' m =
    let (ms, m1) = xen_event_told e m in
    let (ms', m2) = tell_all es m1 in
    let (ms'', m3) = tell_all es' m2 in
    ap (λ (w : List Message × Motions). (ms ++ w.0, w.1)) (tell_all-append es es' m1)
    ∙ ap (λ x. (x, m3)) (sym (append_assoc ms ms' ms''))

abbrev pub packet_end : Event
packet_end = record { type = ev_syn; code = syn_report; value = pos 0 }
