-- ===== src/Superhid/Table.antt =====
-- The table of the reports: each place has the report of its own finger.
use input.Socket.{EventRecord}
use Prim.{Unit}
use input.Superhid.{report_id_multitouch, SuperhidReport, tip_off, tip_on, contact_moved}
use input.Base.{
  ◌==◌, if◌then◌else◌, get_elem?, set, abs_mt_position_x, abs_mt_position_y, abs_mt_tracking_id, ℕ,
  zero, suc, ◌+◌, ◌/◌, ◌%◌, ◌^◌, ◌≡◌, refl, ap, subst, ◌≢◌, Bool, true, false, none, some, List, [],
  ◌∷◌, arith,
}

pub set-set {ℓ} : {A : Type ℓ} (xs : List A) (i : ℕ) (a b : A) → set (set xs i a) i b ≡ set xs i b
set-set [] i a b = refl
set-set (x ∷ xs) zero a b = refl
set-set (x ∷ xs) (suc i) a b = ap (λ ys. x ∷ ys) (set-set xs i a b)

pub set-get_elem? {ℓ} :
    {A : Type ℓ} (xs : List A) (i : ℕ) (a : A) → get_elem? xs i ≡ some a → set xs i a ≡ xs
set-get_elem? [] i a h = refl
set-get_elem? (x ∷ xs) zero a h = let e : a ≡ x = cc in ap (λ y. y ∷ xs) e
set-get_elem? (x ∷ xs) (suc i) a h = ap (λ ys. x ∷ ys) (set-get_elem? xs i a h)

-- The report is set up, for the finger `i`.
pub record IsOf (i : ℕ) (r : SuperhidReport) : Type 0 where
  pub report_id : r.report_id ≡ report_id_multitouch
  pub misc : r.misc / 8 ≡ i

unfoldable pub Numbered : ℕ → List SuperhidReport → Type 0
Numbered i [] = Unit
Numbered i (r ∷ rs) = IsOf i r × Numbered (i + 1) rs

none_differs {ℓ} : {A : Type ℓ} (a : A) → none ≢ some a
none_differs a = λ h. cc

Numbered-get_elem :
    (i k : ℕ) (rs : List SuperhidReport) (r : SuperhidReport)
    → Numbered i rs
    → get_elem? rs k ≡ some r
    → IsOf (i + k) r
unfolding Numbered
Numbered-get_elem i k [] r n h = absurd (none_differs r h)
Numbered-get_elem i zero (x ∷ rs) r n h =
    let e : x ≡ r = cc in subst (λ y. IsOf (i + 0) y) e (subst (λ j. IsOf j x) (omega arith) n.0)
Numbered-get_elem i (suc k) (x ∷ rs) r n h =
    subst (λ j. IsOf j r) (omega arith) (Numbered-get_elem (i + 1) k rs r n.1 h)

Numbered-set :
    (i k : ℕ) (rs : List SuperhidReport) (r : SuperhidReport)
    → Numbered i rs
    → IsOf (i + k) r
    → Numbered i (set rs k r)
unfolding Numbered
Numbered-set i k [] r n h = n
Numbered-set i zero (x ∷ rs) r n h = (subst (λ j. IsOf j r) (omega arith) h, n.1)
Numbered-set i (suc k) (x ∷ rs) r n h =
    (n.0, Numbered-set (i + 1) k rs r n.1 (subst (λ j. IsOf j r) (omega arith) h))

pub Numbered-own :
    (k : ℕ) (rs : List SuperhidReport) (r : SuperhidReport)
    → Numbered 0 rs
    → get_elem? rs k ≡ some r
    → IsOf k r
Numbered-own k rs r n h = subst (λ j. IsOf j r) (omega arith) (Numbered-get_elem 0 k rs r n h)

pub Numbered-put :
    (k : ℕ) (rs : List SuperhidReport) (r : SuperhidReport)
    → Numbered 0 rs
    → IsOf k r
    → Numbered 0 (set rs k r)
Numbered-put k rs r n h = Numbered-set 0 k rs r n (subst (λ j. IsOf j r) (omega arith) h)

IsOf-if :
    (b : Bool) (i : ℕ) (r r' : SuperhidReport) → IsOf i r → IsOf i r' → IsOf i (if b then r else r')
IsOf-if true i r r' h h' = h
IsOf-if false i r r' h h' = h'

-- What a contact's event does to a report leaves it the finger's.
pub contact_moved-IsOf :
    (e : EventRecord) (i : ℕ) (r : SuperhidReport) → IsOf i r → IsOf i (contact_moved e r)
contact_moved-IsOf e i r h =
    let r1 = record r { x = e.ivalue / 8 % 2 ^ 16 } in
    let r2 = record r { y = e.ivalue / 8 % 2 ^ 16 } in
    let off =
      IsOf-if (e.ivalue == 0xFFFFFFFF) i (tip_off r) (tip_on r)
        record { report_id = h.report_id; misc = omega arith }
        record { report_id = h.report_id; misc = omega arith } in
    IsOf-if (e.icode == abs_mt_position_x) i r1 _
      (record { report_id = h.report_id; misc = h.misc })
      (IsOf-if (e.icode == abs_mt_position_y) i r2 _
        (record { report_id = h.report_id; misc = h.misc })
        (IsOf-if (e.icode == abs_mt_tracking_id) i _ r off h))
