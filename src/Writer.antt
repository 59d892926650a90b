-- ===== src/Writer.antt =====
-- mysql/src/packet_writer.rs: from logical packets to a stream of bytes.
pub mod Offsets
pub mod Chunk
pub mod Send
pub mod Closing
pub mod Deliver
use opensrv.Common.{
  ℕ, zero, suc, ◌+◌, ◌-◌, ◌*◌, ◌%◌, ◌^◌, min, Bool, not, ◌&&◌, ◌||◌, Option, none, some, List, [],
  ◌∷◌, ◌++◌, Bytes, length, take, drop, is_nil, ltb, leb, ◌==◌, if◌then◌else◌, Result, ok, err,
}
use opensrv.Deps.ByteOrder.{ByteOrder}
use opensrv.Wire.{
  u24_max, usize_mod, IoError, invalid_data, invalid_input, write_zero, timed_out, transport, hung,
  out_of_fuel,
}
use opensrv.Io.{Io, ◌>>=◌, ◌>>◌, pure, fail, modify, when}

-- The stream below: what it answers to its calls of `write_vectored` and of `flush`, which it chooses.
-- It takes some number of the bytes that it is offered, reports an error, or does not answer.
pub data WriteEvent : Type 0 where
  accepts : ℕ → WriteEvent
  refuses : ℕ → WriteEvent
  stalls : WriteEvent

pub data FlushEvent : Type 0 where
  flushed : FlushEvent
  flush_fails : ℕ → FlushEvent
  flush_stalls : FlushEvent

pub record Peer : Type 0 where
  pub on_write : ℕ → WriteEvent
  pub on_flush : ℕ → FlushEvent

-- The bytes that the stream took, and how often it was called.
pub record Output : Type 0 where
  pub written : Bytes
  pub calls : ℕ
  pub flushes : ℕ

-- `PacketBuilder`
pub record PacketBuilder : Type 0 where
  pub buffer : Bytes
  pub seq : ℕ
  pub max_packet_size : ℕ

pub record PacketWriter : Type 0 where
  pub packet_builder : PacketBuilder
  pub output_stream : Output
  pub flush_threshold : ℕ
  pub write_timeout : Option ℕ

abbrev pub new_builder : PacketBuilder
new_builder = record { buffer = []; seq = 0; max_packet_size = usize_mod - 1 }

pub new : Output → PacketWriter
new output = record {
  packet_builder = new_builder;
  output_stream = output;
  flush_threshold = 64 * 1024;
  write_timeout = none;
}

pub set_seq : ℕ → PacketWriter → PacketWriter
set_seq seq w = record w { packet_builder = record w.packet_builder { seq = seq } }

pub set_flush_threshold : ℕ → PacketWriter → PacketWriter
set_flush_threshold threshold w = record w { flush_threshold = threshold }

pub set_max_packet_size : ℕ → PacketWriter → PacketWriter
set_max_packet_size size w = record w {
  packet_builder = record w.packet_builder { max_packet_size = size };
}

pub set_write_timeout : Option ℕ → PacketWriter → PacketWriter
set_write_timeout timeout w = record w { write_timeout = timeout }

pub remaining_packet_capacity : PacketWriter → ℕ
remaining_packet_capacity w = w.packet_builder.max_packet_size - length w.packet_builder.buffer

unfoldable pub increase_seq : PacketBuilder → PacketBuilder
increase_seq b = record b { seq = (b.seq + 1) % 2 ^ 8 }

-- `write` of the builder: all bytes or none, within the limit.
pub build : Bytes → PacketBuilder → Result IoError ℕ × PacketBuilder
build buf b =
    let new_len = length b.buffer + length buf in
    if leb usize_mod new_len
    then (err invalid_data, b)
    else if ltb b.max_packet_size new_len
    then (err invalid_data, b)
    else (ok (length buf), record b { buffer = b.buffer ++ buf })

-- `write_all` on the writer: `write` takes all bytes at once.
pub write_all : Bytes → Io PacketWriter (Unit {0})
write_all buf w =
    let (r, b) = build buf w.packet_builder in
    (elim r [ ok _ ↦ ok tt | err e ↦ err e ], record w { packet_builder = b })

-- A wait that does not end is cut off where a timeout is set.
pub waited_out : Option ℕ → IoError
waited_out none = hung
waited_out (some duration) = timed_out

-- `slice::chunks`, on fuel: pieces of `n` elements, the last one may be shorter.
unfoldable pub chunks : ℕ → ℕ → Bytes → List Bytes
chunks zero n xs = []
chunks (suc fuel) n [] = []
chunks (suc fuel) n (x ∷ xs) = take n (x ∷ xs) ∷ chunks fuel n (drop n (x ∷ xs))

module _ (peer : Peer) where
  -- `write_vectored` on what is left of the header and of the chunk.
  unfoldable pub write_vectored : Option ℕ → Bytes → Io Output ℕ
  write_vectored timeout slices out = elim (peer.on_write out.calls) [
    | accepts n ↦ (
      ok (min n (length slices)),
      record out { written = out.written ++ take n slices; calls = out.calls + 1 },
    )
    | refuses e ↦ (err (transport e), record out { calls = out.calls + 1 })
    | stalls ↦ (err (waited_out timeout), record out { calls = out.calls + 1 })
  ]

  -- The loop of `write_chunk`, on fuel, over the two offsets.
  unfoldable pub write_loop : Option ℕ → Bytes → Bytes → ℕ → ℕ → ℕ → Io Output (Unit {0})
  write_loop timeout header chunk zero header_offset chunk_offset = fail out_of_fuel
  write_loop timeout header chunk (suc fuel) header_offset chunk_offset =
      if ltb header_offset (length header) || ltb chunk_offset (length chunk)
      then (do
        written ← write_vectored timeout (
            if ltb header_offset (length header)
            then drop header_offset header ++ drop chunk_offset chunk
            else drop chunk_offset chunk)
        let header_remaining = length header - header_offset
        if written == 0
            then fail write_zero
            else if ltb written header_remaining
            then write_loop timeout header chunk fuel (header_offset + written) chunk_offset
            else write_loop timeout header chunk fuel (length header)
                (chunk_offset + (written - header_remaining)))
      else pure tt

  pub flush_output : Io PacketWriter (Unit {0})
  flush_output w =
      let out = w.output_stream in
      let w' : PacketWriter = record w {
        output_stream = record out { flushes = out.flushes + 1 };
      } in
      elim (peer.on_flush out.flushes) [
        | flushed ↦ (ok tt, w')
        | flush_fails e ↦ (err (transport e), w')
        | flush_stalls ↦ (err (waited_out w.write_timeout), w')
      ]

  pub flush_all : Io PacketWriter (Unit {0})
  flush_all = flush_output

  -- `write_chunk`: a header and the chunk. The sequence number moves on first.
  module _ (byteorder : ByteOrder) where
    unfoldable pub write_chunk : Bytes → Io PacketWriter (Unit {0})
    write_chunk chunk w =
        let header = byteorder.write_u24 (length chunk) ++ (w.packet_builder.seq ∷ []) in
        let fuel = suc (length header + length chunk) in
        let (r, out) = write_loop w.write_timeout header chunk fuel 0 0 w.output_stream in
        (r, record w { packet_builder = increase_seq w.packet_builder; output_stream = out })

    -- `for chunk in … { self.write_chunk(chunk)? }`
    unfoldable pub write_chunks : List Bytes → Io PacketWriter (Unit {0})
    write_chunks [] = pure tt
    write_chunks (c ∷ cs) = do write_chunk c; write_chunks cs

    -- The part of `write_packet` that sends.
    unfoldable pub send_packet : Bytes → Io PacketWriter (Unit {0})
    send_packet payload w =
        (do
          write_chunks (chunks (length payload) u24_max payload)
          when (length payload % u24_max == 0) (write_chunk [])
          when (ltb 0 w.flush_threshold && leb w.flush_threshold (length payload)) flush_output)
          w

    unfoldable pub write_packet : Bytes → Io PacketWriter (Unit {0})
    write_packet payload w =
        if not (is_nil w.packet_builder.buffer)
        then (err invalid_input, w)
        else if ltb w.packet_builder.max_packet_size (length payload)
        then (err invalid_data, w)
        else if is_nil payload
        then (ok tt, w)
        else send_packet payload w

    -- The buffer is taken out of the builder before the packet is sent. (Whether its allocation is
    -- kept for the next packet does not show in its contents.)
    pub end_packet : Io PacketWriter (Unit {0})
    end_packet w =
        let builder = w.packet_builder in
        let taken : PacketWriter = record w { packet_builder = record builder { buffer = [] } } in
        if is_nil builder.buffer then (ok tt, w) else write_packet builder.buffer taken
