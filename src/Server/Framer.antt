-- ===== src/Server/Framer.antt =====
-- `StreamFramer` of modbus_sim/server.py. Its state is the buffer.
pub mod Step
pub mod Loop
pub mod Chunks
pub mod Wire
use modbus_sim.Prelude.{
  ℕ, zero, suc, ◌+◌, ◌&&◌, not, Option, none, some, List, [], ◌∷◌, ◌++◌, ltb, leb, if◌then◌else◌,
  length, take, drop, Bytes,
}
use modbus_sim.Result.{Exception, Result, ok, err, protocol_error, ◌>>=◌}
use modbus_sim.Frame.Constants.{mbap_header_len, min_length_field, max_length_field}
use modbus_sim.Frame.Mbap.{MbapHeader, decode_mbap}

-- A header with the whole ADU that it heads.
abbrev pub Item : Type 0
Item = MbapHeader × Bytes

-- The part of `_next_frame` after its header is decoded.
cut : Bytes → MbapHeader → Result (Option (Item × Bytes))
cut buffer header =
    if not (leb min_length_field header.length && leb header.length max_length_field)
    then err (protocol_error header.length)
    else let total = 6 + header.length in
      if ltb (length buffer) total
      then ok none
      else ok (some ((header, take total buffer), drop total buffer))

-- `none` is `None`, with the buffer as it was; otherwise the frame comes with the buffer left.
unfoldable pub next_frame : Bytes → Result (Option (Item × Bytes))
unfolding cut
next_frame buffer =
    if ltb (length buffer) mbap_header_len
    then ok none
    else do header ← decode_mbap buffer; cut buffer header

-- What a run of `feed` came to: the frames yielded, the buffer, and what was raised, if anything.
pub record Fed : Type 0 where
  pub frames : List Item
  pub buffer : Bytes
  pub raised : Option Exception

abbrev pub stopped : Bytes → Option Exception → Fed
stopped buffer raised = record { frames = []; buffer = buffer; raised = raised }

abbrev pub yielded : Item → Fed → Fed
yielded item fed = record fed { frames = item ∷ fed.frames }

-- One round of the `while`, over what `_next_frame` returned and the rounds that follow.
abbrev pub round : Bytes → Result (Option (Item × Bytes)) → (Bytes → Fed) → Fed
round buffer (ok none) later = stopped buffer none
round buffer (ok (some (item, rest))) later = yielded item (later rest)
round buffer (err e) later = stopped buffer (some e)

-- The `while` of `feed`, on fuel.
pub feed_loop : ℕ → Bytes → Fed
feed_loop zero buffer = stopped buffer none
feed_loop (suc fuel) buffer = round buffer (next_frame buffer) (feed_loop fuel)

-- Every frame takes bytes off the buffer, so that its length is fuel enough.
unfoldable pub feed : Bytes → Bytes → Fed
unfolding feed_loop
feed buffer bytes = feed_loop (suc (length (buffer ++ bytes))) (buffer ++ bytes)

unfoldable pub pending : Bytes → ℕ
pending buffer = length buffer
