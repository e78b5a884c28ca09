-- ===== src/Routing/Gone.antt =====
-- A domain that goes away: it stops being a destination.
use input.Domains.{Domain}
use mathlib.Core.Option.{some-injective}
use input.Routing.{
  Diversion, Router, points_to, unless_gone, lost_with, input_domain_gone, divert_domain_gone,
  check_diverts_for_the_dead,
}
use input.Base.{
  ◌==◌, if◌then◌else◌, Bool-cases, get_elem?, Event, ℕ, suc, ◌≡◌, refl, subst, inl, inr, false,
  Option, none, some, List, [], ◌∷◌,
}

-- How many events a domain got.
unfoldable pub heard : ℕ → List (ℕ × Event) → ℕ
heard i [] = 0
heard i ((j, e) ∷ es) = if j == i then suc (heard i es) else heard i es

-- The domain is no destination and no parent, no input is diverted to it, none remembers it, and it got so
-- many events. The table of mouse buttons is not looked at.
pub record IsClear (i n : ℕ) (r : Router) : Type 0 where
  pub keyb_dest : points_to r.keyb_dest i ≡ false
  pub keyb_parent : points_to r.keyb_parent i ≡ false
  pub mouse_dest : points_to r.mouse_dest i ≡ false
  pub mouse_parent : points_to r.mouse_parent i ≡ false
  pub diverts :
      (j : ℕ) (dv : Diversion)
      → r.divert_info j ≡ some dv
      → (points_to dv.key_domain i ≡ false) × (points_to dv.mouse_domain i ≡ false)
  pub prevs :
      (j : ℕ) (d : Domain)
      → get_elem? r.domains j ≡ some d
      → points_to d.prev_keyb_domain_ptr i ≡ false
  pub silent : heard i r.sent ≡ n

unless_gone_lem : (i : ℕ) (o : Option ℕ) → points_to (unless_gone i o) i ≡ false
unless_gone_lem i none = refl
unless_gone_lem i (some j) = elim (Bool-cases (j == i)) [
  | inl same ↦ rw same refl
  | inr other ↦ rw (other, other) refl
]

lost_with_lem : (i : ℕ) (parent dest : Option ℕ) → points_to (lost_with i parent dest) i ≡ false
lost_with_lem i parent dest = elim (Bool-cases (points_to parent i)) [
  | inl up ↦ rw up refl
  | inr not_up ↦ rw not_up (unless_gone_lem i dest)
]

dead_divert :
    (i : ℕ) (o : Option Diversion) (dv : Diversion)
    → elim o [ none ↦ none | some dv ↦ some (divert_domain_gone i dv) ] ≡ some dv
    → (points_to dv.key_domain i ≡ false) × (points_to dv.mouse_domain i ≡ false)
unfolding divert_domain_gone
dead_divert i none dv h = cc
dead_divert i (some old) dv h =
    let same = some-injective (divert_domain_gone i old) dv h in
    (
      subst (λ z. points_to z.key_domain i ≡ false) same (unless_gone_lem i old.key_domain),
      subst (λ z. points_to z.mouse_domain i ≡ false) same (unless_gone_lem i old.mouse_domain),
    )

-- `check_diverts_for_the_dead` after `input_domain_gone`.
pub gone-IsClear :
    (i : ℕ) (r : Router)
    → ((j : ℕ) (d : Domain)
        → get_elem? r.domains j ≡ some d
        → points_to d.prev_keyb_domain_ptr i ≡ false)
    → IsClear i (heard i r.sent) (check_diverts_for_the_dead i (input_domain_gone i r))
unfolding input_domain_gone check_diverts_for_the_dead
gone-IsClear i r prevs = record {
  keyb_dest = lost_with_lem i r.keyb_parent r.keyb_dest;
  keyb_parent = unless_gone_lem i r.keyb_parent;
  mouse_dest = lost_with_lem i r.mouse_parent r.mouse_dest;
  mouse_parent = unless_gone_lem i r.mouse_parent;
  diverts = λ j. dead_divert i (r.divert_info j);
  prevs = prevs;
  silent = refl;
}
