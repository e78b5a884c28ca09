-- ===== src/Socket/Commands/Aim.antt =====
-- The plugin chooses the guest that its events go to.
use input.Socket.Events.{of_word}
use input.Base.{
  if◌then◌else◌, Bool-cases, get_elem?, eqb_ℤ, eq_of_eqb, Event, ℕ, ◌≡◌, refl, inl, inr, true,
  false, some, List, [], ◌∷◌, ◌++◌,
}
use input.Socket.Commands.{
  Hub, deliver_to, send_event, set_dest, slot_event, catch_up, entry, aim, send_to,
}
use input.Domains.{Domain, inputslot_invalid, domain_with_domid, update_at}
use input.Domains.Counts.{update_at_self}

update_twice :
    (f g : Domain → Domain) (ds : List Domain) (i : ℕ) (d : Domain)
    → get_elem? ds i ≡ some d
    → get_elem? (update_at i g (update_at i f ds)) i ≡ some (g (f d))
update_twice f g ds i d h = update_at_self g (update_at i f ds) i (f d) (update_at_self f ds i d h)

abbrev knows : Hub → Domain → Domain
knows h d = record d { last_devslot = h.plugin.recived_slot }

-- The state after the guest was told.
abbrev told_hub : ℕ → Hub → Hub
told_hub i h = record (deliver_to i (slot_event h.plugin.recived_slot) (set_dest (some i) h)) {
  domains = update_at i (knows h) (update_at i (knows h) h.domains);
}

-- Where the guest is: it knows the plugin's device, and `told` is what was sent on the way.
abbrev pub Aimed : ℕ → List (ℕ × Event) → Hub → Hub → Type 0
Aimed i told h h' =
    (h'.plugin.dest ≡ some i)
    × (h'.plugin.recived_slot ≡ h.plugin.recived_slot)
    × (h'.sent ≡ told ++ h.sent)
    × ((d' : Domain) × (get_elem? h'.domains i ≡ some d')
        × (d'.last_devslot ≡ h.plugin.recived_slot))

send_event-slot :
    (i : ℕ) (d : Domain) (h : Hub)
    → get_elem? h.domains i ≡ some d
    → d.client ≡ true
    → send_event (slot_event h.plugin.recived_slot) (set_dest (some i) h)
      ≡ deliver_to i
          (slot_event h.plugin.recived_slot)
          (record (set_dest (some i) h) { domains = update_at i (knows h) h.domains })
unfolding send_event
send_event-slot i d h at client = rw (send_event, at, client) refl

-- VM_SEND_TO for a guest in use that is connected and not paravirtual, after the plugin has named a
-- device: events go to that guest from then on, which knows the device; it is told of it exactly if
-- the last device it was told of is another.
pub send_to-Aimed :
    (v i : ℕ) (d : Domain) (h : Hub)
    → domain_with_domid (of_word v) h.domains ≡ some i
    → get_elem? h.domains i ≡ some d
    → d.is_pv_domain ≡ false
    → d.client ≡ true
    → eqb_ℤ h.plugin.recived_slot inputslot_invalid ≡ false
    → (h' : Hub) × (send_to v h ≡ some h')
      × Aimed i
          (if eqb_ℤ d.last_devslot h.plugin.recived_slot
            then []
            else (i, slot_event h.plugin.recived_slot) ∷ [])
          h
          h'
unfolding send_to
send_to-Aimed v i d h which at hvm client named =
    elim (Bool-cases (eqb_ℤ d.last_devslot h.plugin.recived_slot)) [
      | inl known ↦ (
        set_dest (some i) h,
        rw (which, entry, at, aim, hvm, named, known) refl,
        (refl, refl, rw known refl, (d, at, eq_of_eqb d.last_devslot h.plugin.recived_slot known)),
      )
      | inr new ↦ (
        told_hub i h,
        rw (which, entry, at, aim, hvm, catch_up, named, new, send_event-slot i d h at client) refl,
        (
          refl,
          refl,
          rw new refl,
          (knows h (knows h d), update_twice (knows h) (knows h) h.domains i d at, refl),
        ),
      )
    ]
