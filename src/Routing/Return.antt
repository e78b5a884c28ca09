-- ===== src/Routing/Return.antt =====
-- A domain that had the keyboard gets it back when the domain that remembers it is switched to.
use input.Routing.Previous.{
  domid_of, with_prev_keyb, remember, save_prev_keyb_domain, give_back, restore_in,
  restore_prev_keyb_domain,
}
use input.Domains.Counts.{update_at_self}
use input.Routing.{Router, same_domain, take_keyboard, leave, input_give_keyboard}
use input.Domains.{Domain, minus_one, update_at}
use input.Base.{
  ◌==◌, if◌then◌else◌, ==_iff, get_elem?, ℤ, eqb_ℤ, ℕ, ◌≡◌, refl, sym, ap, ◌∙◌, Bool, true, false,
  Option, none, some, arith,
}

same_domain_eq : (o o' : Option ℕ) → same_domain o o' ≡ true → o' ≡ o
same_domain_eq none none h = refl
same_domain_eq none (some j) h = cc
same_domain_eq (some i) none h = cc
same_domain_eq (some i) (some j) h = ap some ((==_iff j i).0 h)

dest_after :
    (c : Bool) (d : Option ℕ) (r r' : Router)
    → (c ≡ true → r.keyb_dest ≡ d)
    → (if c then r else take_keyboard d r').keyb_dest ≡ d
dest_after true d r r' h = h refl
dest_after false d r r' h = refl

input_give_keyboard-dest : (d : Option ℕ) (r : Router) → (input_give_keyboard d r).keyb_dest ≡ d
unfolding input_give_keyboard
input_give_keyboard-dest d r =
    dest_after (same_domain d r.keyb_dest) d r (leave r) (same_domain_eq d r.keyb_dest)

eqb_self : (a : ℤ) → eqb_ℤ a a ≡ true
eqb_self a = ground arith

abbrev pointer : Option Domain → Option ℕ
pointer none = none
pointer (some d) = d.prev_keyb_domain_ptr

abbrev remembered : Option Domain → ℤ
remembered none = minus_one
remembered (some d) = d.prev_keyb_domid

give_back-dest :
    (k : ℕ) (o : Option ℕ) (domid domid' : ℤ) (r : Router)
    → o ≡ some k
    → domid' ≡ domid
    → eqb_ℤ domid minus_one ≡ false
    → domid_of k r ≡ domid
    → (give_back o domid' r).keyb_dest ≡ some k
give_back-dest k o domid domid' r h same real there =
    ap (λ o. (give_back o domid' r).keyb_dest) h
    ∙ ap (λ x. (give_back (some k) x r).keyb_dest) same
    ∙ rw (real, there, eqb_self domid) (input_give_keyboard-dest (some k) r)

-- While the guest `i` has the mouse another one, `k`, has the keyboard, and `i`'s entry `d` becomes `d'`
-- when that is saved. Later, whoever has what then, the keyboard goes back to `k` when it is restored, if
-- `i`'s entry still has the remembered domain and its id that `d'` has and entry `k` is still of the guest
-- with the same id; nothing else of the table of domains need be the same.
pub save-restore :
    (i k m : ℕ) (d d' now : Domain) (r r' : Router)
    → r.keyb_dest ≡ some k
    → r.mouse_dest ≡ some m
    → k == m ≡ false
    → get_elem? r.domains i ≡ some d
    → eqb_ℤ (domid_of k r) minus_one ≡ false
    → get_elem? (save_prev_keyb_domain (some i) r).domains i ≡ some d'
    → get_elem? r'.domains i ≡ some now
    → now.prev_keyb_domain_ptr ≡ d'.prev_keyb_domain_ptr
    → now.prev_keyb_domid ≡ d'.prev_keyb_domid
    → domid_of k r' ≡ domid_of k r
    → (restore_prev_keyb_domain (some i) r').keyb_dest ≡ some k
unfolding save_prev_keyb_domain restore_prev_keyb_domain
save-restore i k m d d' now r r' keyb mouse other at real saved at' ptr domid there =
    let f = with_prev_keyb k (domid_of k r) in
    let all : (save_prev_keyb_domain (some i) r).domains ≡ update_at i f r.domains =
      ap (λ o. (remember i o r.mouse_dest r).domains) keyb
      ∙ ap (λ o. (remember i (some k) o r).domains) mouse
      ∙ rw other refl in
    let same : some (f d) ≡ some d' =
      sym (update_at_self f r.domains i d at) ∙ ap (λ ds. get_elem? ds i) (sym all) ∙ saved in
    ap (λ o. (restore_in o r').keyb_dest) at'
    ∙ give_back-dest k now.prev_keyb_domain_ptr (domid_of k r) now.prev_keyb_domid r'
        (ptr ∙ sym (ap pointer same)) (domid ∙ sym (ap remembered same)) real there
