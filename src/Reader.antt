-- ===== src/Reader.antt =====
-- mysql/src/packet_reader.rs: from a stream of bytes to logical packets.
pub mod Frames
pub mod Assemble
pub mod Prefix
pub mod Framed
pub mod Sound
pub mod Rounds
pub mod Limit
pub mod Stream
pub mod Taken
use opensrv.Common.{
  ℕ, zero, suc, ◌+◌, ◌*◌, ◌%◌, ◌^◌, max, bit_or, Bool, false, not, Option, none, some, List, [],
  ◌∷◌, ◌++◌, Bytes, length, drop, ltb, leb, ◌==◌, if◌then◌else◌, Result, ok, err, ◌>>=◌, ◌>>◌,
}
use opensrv.Deps.Nom.{Nom, NomErr, IResult, incomplete, error, failure, panicked, out_of_fuel}
use opensrv.Wire.{u24_max, usize_mod, IoError, invalid_data, unexpected_eof, transport}

abbrev packet_buffer_size : ℕ
packet_buffer_size = 4096

abbrev packet_large_buffer_size : ℕ
packet_large_buffer_size = 1_048_576

-- How much room the next read is given.
pub calc_new_buf_size : ℕ → ℕ
calc_new_buf_size last =
    if leb (packet_buffer_size * 2) last
    then packet_large_buffer_size
    else max packet_buffer_size (last * 2)

-- The capacity that `reuse_or_create_buf` asks for, with `len` bytes still unread. Whether the old
-- buffer is `unique` decides between growing it and copying the bytes; `len * 2` past `usize` is
-- `len` itself in the second case, and wraps in the first (a build with checks panics there).
pub resize_buf : Bool → ℕ → ℕ → ℕ
resize_buf unique len last =
    let new = calc_new_buf_size last in
    if leb new len
    then (if ltb (len * 2) usize_mod then len * 2 else if unique then len * 2 % usize_mod else len)
    else new

-- `input[0] | input[1] << 8 | input[2] << 16`
pub frame_len : ℕ → ℕ → ℕ → ℕ
frame_len b0 b1 b2 = bit_or (bit_or b0 (b1 * 2 ^ 8)) (b2 * 2 ^ 16)

-- `PacketReader::ensure_packet_limit`: the loop, on fuel, over the frames in the buffer.
pub limit_loop : ℕ → ℕ → Bytes → ℕ → Result IoError (Unit {0})
limit_loop limit zero input size = err IoError.out_of_fuel
limit_loop limit (suc fuel) (b0 ∷ b1 ∷ b2 ∷ tail) size =
    let len = frame_len b0 b1 b2 in
    let input = b0 ∷ b1 ∷ b2 ∷ tail in
    let next = limit_loop limit fuel (drop (4 + len) input) (size + len) in
    if leb usize_mod (size + len)
    then err invalid_data
    else if ltb limit (size + len)
    then err invalid_data
    else if ltb (length input) (4 + len)
    then ok tt
    else if ltb len u24_max
    then ok tt
    else next
limit_loop limit (suc fuel) _ size = ok tt

pub ensure_packet_limit : ℕ → Bytes → Result IoError (Unit {0})
ensure_packet_limit limit bytes = limit_loop limit (suc (length bytes)) bytes 0

-- `Packet`: the payload of all its frames, and the sequence number of the first.
pub record Packet : Type 0 where
  pub bytes : Bytes
  pub first_seq : ℕ

-- `seq.as_ref()[0]`
pub first_byte : Bytes → Result NomErr ℕ
first_byte [] = err panicked
first_byte (b ∷ bs) = ok b

-- `input.as_ref().get(..3)`, read as a length.
pub payload_len : Bytes → Result NomErr ℕ
payload_len (b0 ∷ b1 ∷ b2 ∷ tail) = ok (frame_len b0 b1 b2)
payload_len _ = err incomplete

-- `if let Some(prev) = previous { seq != prev.wrapping_add(1) }`
pub breaks_sequence : Option ℕ → ℕ → Bool
breaks_sequence none seq = false
breaks_sequence (some prev) seq = not (seq == (prev + 1) % 2 ^ 8)

-- `*first_seq.get_or_insert(seq)`
abbrev pub first_or : Option ℕ → ℕ → ℕ
first_or none seq = seq
first_or (some first) seq = first

-- The first loop of `packet`: have all frames arrived? On fuel.
pub probe_loop : ℕ → Bytes → ℕ → Option ℕ → Result NomErr (Unit {0})
probe_loop zero input total prev = err out_of_fuel
probe_loop (suc fuel) (b0 ∷ b1 ∷ b2 ∷ seq ∷ tail) total prev =
    let len = frame_len b0 b1 b2 in
    let input = b0 ∷ b1 ∷ b2 ∷ seq ∷ tail in
    let next = probe_loop fuel (drop (4 + len) input) (total + len) (some seq) in
    if breaks_sequence prev seq
    then err failure
    else if ltb (length input) (4 + len)
    then err incomplete
    else if leb usize_mod (total + len)
    then err failure
    else if ltb len u24_max
    then ok tt
    else next
probe_loop (suc fuel) _ total prev = err incomplete

module _ (nom : Nom) where
  pub fullpacket : Bytes → IResult (ℕ × Bytes)
  fullpacket i = do
    (i, _) ← nom.tag (0xff ∷ 0xff ∷ 0xff ∷ []) i
    (i, seq) ← nom.take_bytes 1 i
    (i, bytes) ← nom.take_bytes u24_max i
    seq ← first_byte seq
    ok (i, (seq, bytes))

  pub onepacket : Bytes → IResult (ℕ × Bytes)
  onepacket i = do
    (i, length) ← nom.le_u24 i
    (i, seq) ← nom.take_bytes 1 i
    (i, bytes) ← nom.take_bytes length i
    seq ← first_byte seq
    ok (i, (seq, bytes))

  -- The second loop of `packet`, on fuel: the frames are put together.
  pub assemble_loop : ℕ → Bytes → Bytes → Option ℕ → Option ℕ → IResult (ℕ × Packet)
  assemble_loop zero input assembled prev first = err out_of_fuel
  assemble_loop (suc fuel) input assembled prev first = do
    len ← payload_len input
    (rest, (seq, payload)) ← if len == u24_max then fullpacket input else onepacket input
    let first_seq = first_or first seq
    let packet : Packet = record { bytes = assembled ++ payload; first_seq = first_seq }
    let next = assemble_loop fuel rest (assembled ++ payload) (some seq) (some first_seq)
    if breaks_sequence prev seq
        then err failure
        else if ltb len u24_max
        then ok (rest, (seq, packet))
        else next

  pub packet : Bytes → IResult (ℕ × Packet)
  packet i = do
    len ← payload_len i
    if ltb len u24_max
        then (do
          (rest, (seq, payload)) ← onepacket i
          ok (rest, (seq, record { bytes = payload; first_seq = seq })))
        else (do
          probe_loop (suc (length i)) i 0 none
          assemble_loop (suc (length i)) i [] none none)

-- What the stream answers to one read: bytes (none at the end of the stream), or an error. The
-- stream chooses how much it gives. A stream that is used up has ended.
pub data ReadEvent : Type 0 where
  chunk : Bytes → ReadEvent
  failed : ℕ → ReadEvent

-- What `next` returns, the bytes that the reader keeps, and the reads that are still to come.
pub record NextOutcome : Type 0 where
  pub result : Result IoError (Option (ℕ × Packet))
  pub bytes : Bytes
  pub reads : List ReadEvent

pub at_end : Bytes → List ReadEvent → NextOutcome
at_end [] reads = record { result = ok none; bytes = []; reads = reads }
at_end (b ∷ bs) reads = record { result = err unexpected_eof; bytes = b ∷ bs; reads = reads }

-- What one round finds in the buffer: a packet and the rest, an error, or not enough.
pub data Attempt : Type 0 where
  found : Bytes → ℕ × Packet → Attempt
  broken : IoError → Attempt
  need_more : Attempt

pub from_packet : IResult (ℕ × Packet) → Attempt
from_packet (ok (rest, p)) = found rest p
from_packet (err incomplete) = need_more
from_packet (err error) = need_more
from_packet (err failure) = broken invalid_data
from_packet (err panicked) = broken IoError.panicked
from_packet (err out_of_fuel) = broken IoError.out_of_fuel

-- A packet or an error ends the call before the read, which comes otherwise.
abbrev pub settle : Attempt → Bytes → List ReadEvent → NextOutcome → NextOutcome
settle (found rest p) bytes reads more = record {
  result = ok (some p);
  bytes = rest;
  reads = reads;
}
settle (broken e) bytes reads more = record { result = err e; bytes = bytes; reads = reads }
settle need_more bytes reads more = more

module _ (nom : Nom) (limit : ℕ) where
  pub attempt : Bytes → Attempt
  attempt [] = need_more
  attempt (b ∷ bs) = elim (ensure_packet_limit limit (b ∷ bs)) [
    | ok _ ↦ from_packet (packet nom (b ∷ bs))
    | err e ↦ broken e
  ]

  -- `PacketReader::next` and `next_async`: rounds of an attempt and a read. Before a read the
  -- unread bytes move to the new buffer, so an error of the stream drops them.
  pub next : Bytes → List ReadEvent → NextOutcome
  next bytes [] = settle (attempt bytes) bytes [] (at_end bytes [])
  next bytes (failed e ∷ reads) =
      let lost : NextOutcome = record { result = err (transport e); bytes = []; reads = reads } in
      settle (attempt bytes) bytes (failed e ∷ reads) lost
  next bytes (chunk [] ∷ reads) =
      settle (attempt bytes) bytes (chunk [] ∷ reads) (at_end bytes reads)
  next bytes (chunk (c ∷ cs) ∷ reads) =
      let more = next (bytes ++ (c ∷ cs)) reads in
      settle (attempt bytes) bytes (chunk (c ∷ cs) ∷ reads) more
