-- ===== src/Domains.antt =====
-- domains.c, the table of the guests. A pointer to a domain is the number of its entry; the null pointer is
-- `none`. What xenstore and Xen say is a parameter of the functions that ask them.
pub mod Counts
pub mod Unique
use input.Base.{
  ◌==◌, if◌then◌else◌, get_elem?, ℤ, pos, negsuc, ltb_ℤ, eqb_ℤ, ℕ, zero, suc, Bool, true, false,
  not, ◌&&◌, ◌||◌, Option, none, some, List, [], ◌∷◌, map,
}

abbrev pub ndomain_max : ℕ
ndomain_max = 20

-- `struct domain` of switch.h, without the fields for the display, the devices' watches and the times.
pub record Domain : Type 0 where
  pub initialised : Bool
  pub client : Bool
  pub domid : ℤ
  pub slot : ℤ
  pub keyboard_led_code : ℕ
  pub is_pvm : Bool
  pub is_in_s3 : Bool
  pub abs_enabled : Bool
  pub prev_keyb_domid : ℤ
  pub prev_keyb_domain_ptr : Option ℕ
  pub uuid : Option (List ℕ)
  pub sstate : ℤ
  pub is_pv_domain : Bool
  pub has_vkbd_backend : Bool
  pub last_devslot : ℤ
  pub has_secondary_gpu : Bool
  pub has_plugin : Bool

abbrev pub minus_one : ℤ
minus_one = negsuc 0

-- INPUTSLOT_INVALID
abbrev pub inputslot_invalid : ℤ
inputslot_invalid = negsuc 1

-- The first entry that passes a test.
unfoldable pub find_index : (Domain → Bool) → List Domain → Option ℕ
find_index test [] = none
find_index test (d ∷ ds) =
    if test d then some 0 else elim (find_index test ds) [ none ↦ none | some i ↦ some (suc i) ]

unfoldable pub count_of : (Domain → Bool) → List Domain → ℕ
count_of test [] = 0
count_of test (d ∷ ds) = if test d then suc (count_of test ds) else count_of test ds

abbrev pub has_domid : ℤ → Domain → Bool
has_domid domid d = d.initialised && eqb_ℤ d.domid domid

abbrev pub has_slot : ℤ → Domain → Bool
has_slot slot d = d.initialised && eqb_ℤ d.slot slot

unfoldable pub domains_count : List Domain → ℕ
unfolding count_of
domains_count = count_of (λ d. d.initialised)

unfoldable pub empty_domain : List Domain → Option ℕ
unfolding find_index
empty_domain = find_index (λ d. not d.initialised)

unfoldable pub domain_with_domid : ℤ → List Domain → Option ℕ
unfolding find_index
domain_with_domid domid = find_index (has_domid domid)

unfoldable pub domain_with_slot : ℤ → List Domain → Option ℕ
unfolding find_index
domain_with_slot slot = find_index (has_slot slot)

unfoldable pub domain_with_slot_and_not_domid : ℤ → ℤ → List Domain → Option ℕ
unfolding find_index
domain_with_slot_and_not_domid slot domid =
    find_index (λ d. has_slot slot d && not (eqb_ℤ d.domid domid))

abbrev pub same_text : List ℕ → List ℕ → Bool
same_text [] [] = true
same_text (x ∷ xs) (y ∷ ys) = x == y && same_text xs ys
same_text _ _ = false

abbrev has_uuid : List ℕ → Option (List ℕ) → Bool
has_uuid uuid none = false
has_uuid uuid (some u) = same_text u uuid

unfoldable pub domain_with_uuid : List ℕ → List Domain → Option ℕ
unfolding find_index
domain_with_uuid uuid = find_index (λ d. d.initialised && has_uuid uuid d.uuid)

unfoldable pub domain_uivm : List Domain → Option ℕ
unfolding domain_with_slot
domain_uivm = domain_with_slot (pos 0)

unfoldable pub domain_pvm : List Domain → Option ℕ
unfolding find_index
domain_pvm = find_index (λ d. d.initialised && d.is_pvm)

-- The fields of entry `i` are changed.
unfoldable pub update_at : ℕ → (Domain → Domain) → List Domain → List Domain
update_at i f [] = []
update_at zero f (d ∷ ds) = f d ∷ ds
update_at (suc i) f (d ∷ ds) = d ∷ update_at i f ds

abbrev pub no_prev_keyb : Domain → Domain
no_prev_keyb d = record d { prev_keyb_domain_ptr = none; prev_keyb_domid = minus_one }

-- Nobody's keyboard goes back to the domain with this number.
unfoldable pub reset_prev_keyb_domain : ℤ → List Domain → List Domain
reset_prev_keyb_domain domid ds =
    if eqb_ℤ domid minus_one
    then ds
    else map (λ d. if d.initialised && eqb_ℤ d.prev_keyb_domid domid then no_prev_keyb d else d) ds

-- The `memset` and the fields set after it.
abbrev pub blank : Domain
blank = record {
  initialised = false;
  client = false;
  domid = minus_one;
  slot = minus_one;
  keyboard_led_code = 0;
  is_pvm = false;
  is_in_s3 = false;
  abs_enabled = false;
  prev_keyb_domid = minus_one;
  prev_keyb_domain_ptr = none;
  uuid = none;
  sstate = pos 5;
  is_pv_domain = false;
  has_vkbd_backend = false;
  last_devslot = inputslot_invalid;
  has_secondary_gpu = false;
  has_plugin = false;
}

abbrev pub domain_init : ℤ → Domain
domain_init domid = record blank { domid = domid }

-- The entry, and the table.
unfoldable pub domain_new : ℤ → List Domain → Option ℕ × List Domain
unfolding domain_with_domid empty_domain update_at
domain_new domid ds = elim (domain_with_domid domid ds) [
  | some other ↦ (none, ds)
  | none ↦ elim (empty_domain ds) [
    | none ↦ (none, ds)
    | some i ↦ (some i, update_at i (λ _. domain_init domid) ds)
  ]
]

-- What is left of a domain that has gone, in `domain_gone` and `domain_release`.
abbrev pub cleared : Domain → Domain
cleared d = record d {
  uuid = none;
  client = false;
  initialised = false;
  slot = minus_one;
  is_pvm = false;
  prev_keyb_domain_ptr = none;
  prev_keyb_domid = minus_one;
}

-- The part of `domain_gone` and `domain_release` that is about the table.
unfoldable pub forget : ℕ → List Domain → List Domain
unfolding update_at reset_prev_keyb_domain
forget i ds = elim (get_elem? ds i) [
  | none ↦ ds
  | some d ↦ update_at i cleared (reset_prev_keyb_domain d.domid ds)
]

abbrev pub switch_on : Domain → Domain
switch_on d = record d { initialised = true }

abbrev pub after_slot : ℕ → Bool × List Domain → Bool × List Domain
after_slot i r = if r.0 then (true, update_at i switch_on r.1) else (false, r.1)

abbrev pub read_info : Option (List ℕ) → Bool → Domain → Domain
read_info uuid is_pv d = record d { uuid = uuid; is_pv_domain = is_pv }

-- What `xc_domain_getinfo` finds: nothing, or a domain, which may be one with a higher number, and whether
-- that one is dying.
pub data Info : Type 0 where
  none_found : Info
  found : Bool → Bool → Info

module _ (getinfo : ℤ → Info) (in_xenstore : ℤ → Bool) where
  -- The last test: Xen finds nothing, or what it finds is dying and the domain has left xenstore.
  abbrev pub is_dead : Domain → Bool
  is_dead d = elim (getinfo d.domid) [
    | none_found ↦ true
    | found same dying ↦ not (in_xenstore d.domid) && dying
  ]

  abbrev pub is_unknown : Domain → Bool
  is_unknown d = elim (getinfo d.domid) [ none_found ↦ true | found same dying ↦ not same ]

  abbrev pub test_at : (Domain → Bool) → Option ℕ → List Domain → Bool
  test_at test none ds = false
  test_at test (some i) ds = elim (get_elem? ds i) [ none ↦ false | some d ↦ test d ]

  unfoldable pub slot_occupied_by_dead_domain : ℤ → ℤ → List Domain → Bool
  unfolding domain_with_slot_and_not_domid domain_with_slot
  slot_occupied_by_dead_domain slot domid ds =
      not (eqb_ℤ slot minus_one)
      && (test_at is_unknown (domain_with_slot_and_not_domid slot domid ds) ds
          || test_at is_dead (domain_with_slot slot ds) ds)

  -- `gone` is `domain_gone`, which has no effect on the null pointer.
  unfoldable pub salvage : ℤ → ℤ → (ℕ → List Domain → List Domain) → List Domain → List Domain
  unfolding slot_occupied_by_dead_domain domain_with_slot_and_not_domid
  salvage slot domid gone ds =
      if slot_occupied_by_dead_domain slot domid ds
      then elim (domain_with_slot_and_not_domid slot domid ds) [ none ↦ ds | some j ↦ gone j ds ]
      else ds

  -- `slot` is what the toolstack wrote for the domain. The result is false for -EINVAL and -EEXIST.
  unfoldable pub domain_assign_slot : ℕ → ℤ → ℤ → List Domain → Bool × List Domain
  unfolding forget domain_with_slot update_at salvage
  domain_assign_slot i domid slot ds =
      if ltb_ℤ slot (pos 0) || not (ltb_ℤ slot (pos ndomain_max))
      then (false, ds)
      else let ds' = salvage slot domid forget ds in
        elim (domain_with_slot slot ds') [
          | some other ↦ (false, ds')
          | none ↦ (true, update_at i (λ d. record d { slot = slot }) ds')
        ]

  -- `domain_setup`: the watches and the nodes in xenstore are left out.
  unfoldable pub domain_setup :
      ℕ → ℤ → Option (List ℕ) → Bool → ℤ → List Domain → Bool × List Domain
  unfolding domain_assign_slot update_at
  domain_setup i domid uuid is_pv slot ds =
      after_slot i (domain_assign_slot i domid slot (update_at i (read_info uuid is_pv) ds))
