-- ===== src/Socket/Commands.antt =====
-- socket.c, what comes from the plugin: `process_event`, `send_event`, `send_error`; and
-- `sock_plugin_sendconfig` of input.c. The entry of the table of domains that `dest` and `src` name is
-- read where the source follows the pointer.
pub mod Aim
use input.Socket.{EventRecord}
use input.Socket.Devices.{ev_dev, dev_set, dev_conf, dev_reset, all_devices, send_plugin_dev_event}
use input.Base.{
  ltb, ◌==◌, if◌then◌else◌, ◌>>=◌, get_elem?, ℤ, eqb_ℤ, Event, ℕ, suc, ◌+◌, ◌*◌, ◌%◌, ◌^◌, Bool,
  true, false, not, ◌&&◌, ◌||◌, Option, none, some, List, [], ◌∷◌,
}
use input.Domains.{Domain, inputslot_invalid, domain_with_domid, update_at}
use input.Socket.Sending.{Plugin, send_to_plugin}
use input.Socket.Events.{
  ev_vm, vm_send_to, vm_take_from, vm_error, e_bad_domain, e_bad_code, of_word, record_of,
}

-- The plugin, the table of domains, and what `dom0_input_event` sent to the guests.
pub record Hub : Type 0 where
  pub plugin : Plugin
  pub domains : List Domain
  pub sent : List (ℕ × Event)

abbrev pub with_plugin : Plugin → Hub → Hub
with_plugin p h = record h { plugin = p }

-- The domain at the other end of `src` loses its pointer when the connection is closed.
abbrev pub unlink : Option ℕ → List Domain → List Domain
unlink none ds = ds
unlink (some i) ds = update_at i (λ d. record d { has_plugin = false }) ds

abbrev pub put_plugin : Plugin → Hub → Hub
put_plugin p h = record h {
  plugin = p;
  domains = if p.connected then h.domains else unlink h.plugin.src h.domains;
}

unfoldable pub send_error : ℕ → ℕ → ℕ → Hub → Option Hub
unfolding send_to_plugin
send_error code kind domain h =
    let v = code * 2 ^ 24 + kind % 256 * 2 ^ 16 + domain % 256 * 2 ^ 8 in
    send_to_plugin (record_of ev_vm vm_error v) h.plugin >>= λ r.
    some (put_plugin (if r.0 || not (r.1.error == 0) then r.1 else record r.1 { error = v }) h)

abbrev pub deliver_to : ℕ → Event → Hub → Hub
deliver_to i e h = record h { sent = (i, e) ∷ h.sent }

-- Of the events about devices only the change of slot is passed on.
abbrev pub send_to_client : Domain → ℕ → Event → Hub → Hub
send_to_client d i e h =
    if not d.client
    then h
    else if e.type == ev_dev
    then (if e.code == dev_set
        then deliver_to i e (record h {
          plugin = record h.plugin { recived_slot = e.value };
          domains = update_at i (λ d. record d { last_devslot = e.value }) h.domains;
        })
        else h)
    else deliver_to i e h

unfoldable pub send_event : Event → Hub → Hub
send_event e h = elim h.plugin.dest [
  | none ↦ h
  | some i ↦ elim (get_elem? h.domains i) [ none ↦ h | some d ↦ send_to_client d i e h ]
]

abbrev pub set_dest : Option ℕ → Hub → Hub
set_dest dest h = with_plugin (record h.plugin { dest = dest }) h

abbrev pub slot_event : ℤ → Event
slot_event slot = record { type = ev_dev; code = dev_set; value = slot }

-- The guest that events now go to is told the device, if it knows another.
abbrev pub catch_up : ℕ → Domain → Hub → Hub
catch_up i d h =
    let slot = h.plugin.recived_slot in
    if eqb_ℤ slot inputslot_invalid || eqb_ℤ d.last_devslot slot
    then h
    else let h' = send_event (slot_event slot) h in
      record h' { domains = update_at i (λ d. record d { last_devslot = slot }) h'.domains }

abbrev pub entry : Option ℕ → List Domain → Option (ℕ × Domain)
entry none ds = none
entry (some i) ds = elim (get_elem? ds i) [ none ↦ none | some d ↦ some (i, d) ]

abbrev pub aim : ℕ → Option (ℕ × Domain) → Hub → Option Hub
aim v none h = send_error e_bad_domain vm_send_to v (set_dest none h)
aim v (some (i, d)) h =
    if d.is_pv_domain
    then (send_error e_bad_domain vm_send_to v (set_dest (some i) h) >>= λ h'.
        some (set_dest none h'))
    else some (catch_up i d (set_dest (some i) h))

unfoldable pub send_to : ℕ → Hub → Option Hub
unfolding send_event
send_to v h = aim v (entry (domain_with_domid (of_word v) h.domains) h.domains) h

-- The devices that the plugin is told of: those between HID_TYPE_KEYBOARD and HID_TYPE_THINKPAD_ACPI.
abbrev pub configure : ℕ → List ℕ → Plugin → Option Plugin
configure slot [] p = some p
configure slot (t ∷ ts) p =
    (if ltb 1 t && ltb t 5 then send_plugin_dev_event dev_conf slot p else some p)
    >>= configure (suc slot) ts

unfoldable pub sock_plugin_sendconfig : List ℕ → Plugin → Option Plugin
unfolding send_plugin_dev_event
sock_plugin_sendconfig types p = send_plugin_dev_event dev_reset all_devices p >>= configure 0 types

abbrev pub claim : List ℕ → ℕ → Option (ℕ × Domain) → Hub → Option Hub
claim types v none h = send_error e_bad_domain vm_take_from v h
claim types v (some (i, d)) h =
    let taken = update_at i (λ d. record d { has_plugin = true }) h.domains in
    let h' = record h { domains = taken; plugin = record h.plugin { src = some i } } in
    sock_plugin_sendconfig types h'.plugin >>= λ p. some (put_plugin p h')

unfoldable pub take_from : List ℕ → ℕ → Hub → Option Hub
unfolding domain_with_domid send_error sock_plugin_sendconfig update_at
take_from types v h =
    let ds = unlink h.plugin.src h.domains in
    claim types v (entry (domain_with_domid (of_word v) ds) ds) (record h { domains = ds })

abbrev pub is_aimed : Option ℕ → Bool
is_aimed none = false
is_aimed (some i) = true

-- `types` are the kinds of the input devices.
unfoldable pub process_event : List ℕ → EventRecord → Hub → Option Hub
unfolding send_to take_from send_error send_event
process_event types r h =
    if r.itype == ev_vm
    then (if r.icode == vm_send_to
        then send_to r.ivalue h
        else if r.icode == vm_take_from
        then take_from types r.ivalue h
        else send_error e_bad_code r.icode 0 h)
    else if is_aimed h.plugin.dest
    then some (send_event (record { type = r.itype; code = r.icode; value = of_word r.ivalue }) h)
    else send_error e_bad_domain 0 0xff h
