-- ===== src/Socket/Sending.antt =====
-- socket.c, the sending side: `send_to_plugin` with its partial sends. What the kernel answers to each
-- call of `send` is a list; where it ends, the socket's buffer is full. A socket that was closed has the
-- number -1, and every `send` on it fails. The bytes that the kernel took are `wire`, in their order.
-- `none` stands for undefined behaviour: memory that was freed is freed or used again.
pub mod Whole
pub mod Records
pub mod Wire
use input.Base.{
  leb, if◌then◌else◌, ◌>>=◌, length, take, drop, ℤ, ℕ, suc, ◌/◌, ◌%◌, ◌^◌, Bool, true, false,
  Option, none, some, List, [], ◌∷◌, ◌++◌,
}
use input.Socket.{EventRecord}

-- One call of `send`: it took so many bytes and one more (or all, if there are fewer), or failed
-- with EINTR, with EAGAIN, or with another error.
pub data Answer : Type 0 where
  took : ℕ → Answer
  interrupted would_block failed : Answer

pub data Progress : Type 0 where
  done busy broken : Progress

-- `struct dev_event`
pub record DevEvent : Type 0 where
  pub slot : ℕ  -- uint8
  pub remove : Bool
  pub add : Bool

-- `struct sock_plugin`, without the received bytes. `partial` is the first `delayed` bytes of
-- `partialBuffer`, `dev_events` the first `deq_size` entries; `freed` says that the pointer to them
-- dangles. A domain is the number of its entry in the table.
pub record Plugin : Type 0 where
  pub connected : Bool
  pub src : Option ℕ
  pub dest : Option ℕ
  pub slot : ℤ
  pub recived_slot : ℤ
  pub dropped : Bool
  pub slot_dropped : Bool
  pub partial : List ℕ
  pub resetall : Bool
  pub dev_events : List DevEvent
  pub freed : Bool
  pub error : ℕ
  pub wire : List ℕ
  pub answers : List Answer

abbrev pub is_empty {ℓ} : {A : Type ℓ} → List A → Bool
is_empty [] = true
is_empty (x ∷ xs) = false

-- Byte number `i` of a little-endian word.
abbrev pub byte_of : ℕ → ℕ → ℕ
byte_of i w = w / 256 ^ i % 256

-- The record's bytes in memory.
unfoldable pub encode : EventRecord → List ℕ
encode r =
    byte_of 0 r.magic
    ∷ byte_of 1 r.magic
    ∷ byte_of 2 r.magic
    ∷ byte_of 3 r.magic
    ∷ byte_of 0 r.itype
    ∷ byte_of 1 r.itype
    ∷ byte_of 0 r.icode
    ∷ byte_of 1 r.icode
    ∷ byte_of 0 r.ivalue
    ∷ byte_of 1 r.ivalue
    ∷ byte_of 2 r.ivalue
    ∷ byte_of 3 r.ivalue
    ∷ []

-- What a loop around `send` leaves: the bytes taken so far, those left, and how it ended.
pub record Flow : Type 0 where
  pub wire : List ℕ
  pub left : List ℕ
  pub answers : List Answer
  pub progress : Progress

-- The loop of `send_delayed_to_plugin`: on as long as bytes are taken and some are left.
unfoldable pub send_all : List Answer → List ℕ → List ℕ → Flow
send_all [] bs w = record { wire = w; left = bs; answers = []; progress = busy }
send_all (interrupted ∷ rs) bs w = send_all rs bs w
send_all (would_block ∷ rs) bs w = record { wire = w; left = bs; answers = rs; progress = busy }
send_all (failed ∷ rs) bs w = record { wire = w; left = bs; answers = rs; progress = broken }
send_all (took n ∷ rs) bs w =
    let more = send_all rs (drop (suc n) bs) (w ++ take (suc n) bs) in
    if leb (length bs) (suc n)
    then record { wire = w ++ bs; left = []; answers = rs; progress = done }
    else more

-- The loop of `send_to_plugin`: once some bytes are taken it ends.
unfoldable pub send_once : List Answer → List ℕ → List ℕ → Flow
send_once [] bs w = record { wire = w; left = bs; answers = []; progress = busy }
send_once (interrupted ∷ rs) bs w = send_once rs bs w
send_once (would_block ∷ rs) bs w = record { wire = w; left = bs; answers = rs; progress = busy }
send_once (failed ∷ rs) bs w = record { wire = w; left = bs; answers = rs; progress = broken }
send_once (took n ∷ rs) bs w = record {
  wire = w ++ take (suc n) bs;
  left = drop (suc n) bs;
  answers = rs;
  progress = done;
}

abbrev pub answers_to : Plugin → List Answer
answers_to p = if p.connected then p.answers else failed ∷ p.answers

-- `free(buf->dev_events)`: an empty queue has the null pointer.
unfoldable pub kill_connection : Plugin → Option Plugin
kill_connection p =
    if is_empty p.dev_events
    then some (record p { connected = false; src = none })
    else if p.freed
    then none
    else some (record p { connected = false; src = none; freed = true })

abbrev pub after_delayed : Progress → Plugin → Option (Bool × Plugin)
after_delayed done p = some (true, p)
after_delayed busy p = some (false, p)
after_delayed broken p = kill_connection p >>= λ q. some (false, q)

abbrev pub flowed : Flow → List ℕ → Plugin → Plugin
flowed f partial p = record p { wire = f.wire; partial = partial; answers = f.answers }

unfoldable pub send_delayed_to_plugin : Plugin → Option (Bool × Plugin)
unfolding send_all kill_connection
send_delayed_to_plugin p =
    let f = send_all (answers_to p) p.partial p.wire in after_delayed f.progress (flowed f f.left p)

-- What was sent before comes first.
unfoldable pub send_front : Plugin → Option (Bool × Plugin)
unfolding send_delayed_to_plugin
send_front p = if is_empty p.partial then some (true, p) else send_delayed_to_plugin p

-- A partial send counts as one that succeeded, and so does one that closed the connection.
abbrev pub after_record : Flow → Plugin → Option (Bool × Plugin)
after_record f p = elim f.progress [
  | busy ↦ some (false, flowed f p.partial p)
  | broken ↦ kill_connection (flowed f p.partial p) >>= λ q. some (true, q)
  | done ↦
      if is_empty f.left
      then some (true, flowed f p.partial p)
      else (send_delayed_to_plugin (flowed f f.left p) >>= λ r. some (true, r.1))
]

unfoldable pub send_record : EventRecord → Plugin → Option (Bool × Plugin)
unfolding send_once kill_connection send_delayed_to_plugin
send_record e p = after_record (send_once (answers_to p) (encode e) p.wire) p

unfoldable pub send_to_plugin : EventRecord → Plugin → Option (Bool × Plugin)
unfolding send_front send_record
send_to_plugin e p = send_front p >>= λ r. if r.0 then send_record e r.1 else some r
