-- ===== src/Socket.antt =====
-- socket.c and switch.h, the socket of the event plugin. Here: the packed record on the wire, the search
-- for it in what was received (`findnext`), and the loop of `wrapper_server_recv`. The received
-- bytes not yet used, `bytes_remaining` of them from `position` on, are a list of bytes.
pub mod Framing
pub mod Chunks
pub mod Sending
pub mod Devices
pub mod Events
pub mod Told
pub mod Commands
use input.Base.{
  leb, ◌==◌, if◌then◌else◌, length, drop, ℕ, zero, suc, ◌+◌, ◌*◌, Option, none, some, List, [], ◌∷◌,
  ◌++◌,
}

-- `struct event_record`, packed.
pub record EventRecord : Type 0 where
  pub magic : ℕ  -- uint32
  pub itype : ℕ  -- uint16
  pub icode : ℕ  -- uint16
  pub ivalue : ℕ  -- uint32

abbrev pub magic_word : ℕ
magic_word = 0xAD9CBCE9

abbrev pub event_size : ℕ
event_size = 12

-- `buffersize`
abbrev pub buffer_size : ℕ
buffer_size = event_size * 100

abbrev pub byte_at : List ℕ → ℕ → ℕ
byte_at [] i = 0
byte_at (b ∷ bs) zero = b
byte_at (b ∷ bs) (suc i) = byte_at bs i

abbrev pub word16 : List ℕ → ℕ → ℕ
word16 bs i = byte_at bs i + byte_at bs (suc i) * 256

abbrev pub word32 : List ℕ → ℕ → ℕ
word32 bs i = word16 bs i + word16 bs (suc (suc i)) * 65536

-- The cast of the buffer at `position` to a record.
unfoldable pub decode : List ℕ → EventRecord
decode bs = record {
  magic = word32 bs 0;
  itype = word16 bs 4;
  icode = word16 bs 6;
  ivalue = word32 bs 8;
}

-- Junk is skipped byte by byte while a whole record is there.
unfoldable pub findnext : List ℕ → Option EventRecord × List ℕ
unfolding decode
findnext [] = (none, [])
findnext (b ∷ bs) =
    let skipped = findnext bs in
    if leb event_size (length (b ∷ bs))
    then (if (decode (b ∷ bs)).magic == magic_word
        then (some (decode (b ∷ bs)), drop event_size (b ∷ bs))
        else skipped)
    else (none, b ∷ bs)

-- `while ((r = findnext(buf)) != NULL) process_event(r, buf);`: the records, in order, and what stays
-- in the buffer. A round uses up a byte at least, so the fuel is the number of bytes and one.
unfoldable pub take_records : ℕ → List ℕ → List EventRecord × List ℕ
take_records zero bs = ([], bs)
take_records (suc fuel) bs =
    let (found, rest) = findnext bs in
    elim found [
      | none ↦ ([], rest)
      | some r ↦ let (rs, left) = take_records fuel rest in (r ∷ rs, left)
    ]

-- One successful `recv` that brings `bytes`.
unfoldable pub receive : List ℕ → List ℕ → List EventRecord × List ℕ
unfolding take_records
receive buffer bytes = take_records (length (buffer ++ bytes) + 1) (buffer ++ bytes)
