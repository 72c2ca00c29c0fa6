-- ===== src/Server/Framer/Loop.antt =====
-- The loop of `feed`: it ends, and what it leaves.
use modbus_sim.Prelude.{
  ℕ, zero, suc, ◌+◌, ◌*◌, ◌<◌, ◌≤◌, ◌≡◌, refl, sym, ap, subst, ◌∙◌, Option, none, some, List, [],
  ◌∷◌, ◌++◌, arith, length, Bytes, append_assoc, length-append, All,
}
use modbus_sim.Result.{Exception, Result, ok, err, protocol_error}
use modbus_sim.Frame.Mbap.{decode_mbap}
use modbus_sim.Server.Framer.{
  Item, next_frame, Fed, stopped, yielded, round, feed_loop, feed, pending,
}
use modbus_sim.Server.Framer.Step.{
  decode_mbap-append, IsCut, IsBad, next_frame-IsCut, next_frame-eq-err, next_frame-eq-none,
}

-- The loop over a whole buffer.
pub drain : Bytes → Fed
drain buffer = feed_loop (suc (length buffer)) buffer

pub feed-drain : (buffer bytes : Bytes) → feed buffer bytes ≡ drain (buffer ++ bytes)
unfolding feed drain
feed-drain buffer bytes = refl

-- A frame takes at least eight bytes off the buffer.
rest-lt :
    (buffer : Bytes) (item : Item) (rest : Bytes)
    → next_frame buffer ≡ ok (some (item, rest))
    → length rest + 8 ≤ length buffer
rest-lt buffer item rest h =
    let c = next_frame-IsCut buffer item rest h in
    omega (arith, c.size, c.lower, ap length c.splits, length-append item.1 rest)

-- A round is decided by the runs that it makes on what a frame leaves.
round-same :
    (buffer : Bytes) (r : Result (Option (Item × Bytes))) (f g : Bytes → Fed)
    → next_frame buffer ≡ r
    → ((rest : Bytes) → length rest < length buffer → f rest ≡ g rest)
    → round buffer r f ≡ round buffer r g
round-same buffer (ok none) f g e h = refl
round-same buffer (ok (some (item, rest))) f g e h =
    ap (yielded item) (h rest (omega (arith, rest-lt buffer item rest e)))
round-same buffer (err x) f g e h = refl

-- Any fuel above the length of the buffer gives the same run.
feed_loop_fuel :
    (f g : ℕ) (buffer : Bytes)
    → length buffer < f
    → length buffer < g
    → feed_loop f buffer ≡ feed_loop g buffer
unfolding feed_loop
feed_loop_fuel zero g buffer h k = absurd (omega arith)
feed_loop_fuel (suc f) zero buffer h k = absurd (omega arith)
feed_loop_fuel (suc f) (suc g) buffer h k =
    round-same buffer (next_frame buffer) (feed_loop f) (feed_loop g) refl
      (λ rest lt. feed_loop_fuel f g rest (omega arith) (omega arith))

-- The `while` as an equation, with no fuel in it.
pub drain_lem : (buffer : Bytes) → drain buffer ≡ round buffer (next_frame buffer) drain
unfolding drain feed_loop
drain_lem buffer =
    round-same buffer (next_frame buffer) (feed_loop (length buffer)) drain refl
      (λ rest lt. feed_loop_fuel (length buffer) (suc (length rest)) rest lt (omega arith))

-- Induction over the frames of a buffer.
pub drain_induction {ℓ} :
    (P : Bytes → Fed → Type ℓ)
    → ((b : Bytes) → next_frame b ≡ ok none → P b (stopped b none))
    → ((b : Bytes) (e : Exception) → next_frame b ≡ err e → P b (stopped b (some e)))
    → ((b : Bytes) (item : Item) (rest : Bytes)
        → next_frame b ≡ ok (some (item, rest))
        → P rest (drain rest)
        → P b (yielded item (drain rest)))
    → (buffer : Bytes) → P buffer (drain buffer)
drain_induction P idle bad more buffer = go (suc (length buffer)) buffer (omega arith)
  where
    by_case :
        (b : Bytes) (r : Result (Option (Item × Bytes)))
        → next_frame b ≡ r
        → ((rest : Bytes) → length rest < length b → P rest (drain rest))
        → P b (round b r drain)
    by_case b (ok none) e ih = idle b e
    by_case b (ok (some (item, rest))) e ih =
        more b item rest e (ih rest (omega (arith, rest-lt b item rest e)))
    by_case b (err x) e ih = bad b x e

    go : (n : ℕ) (b : Bytes) → length b < n → P b (drain b)
    go zero b h = absurd (omega arith)
    go (suc n) b h =
        rw drain_lem (by_case b (next_frame b) refl (λ rest lt. go n rest (omega arith)))

-- The bytes of the frames, one after the other.
abbrev pub wire : List Item → Bytes
wire [] = []
wire (item ∷ items) = item.1 ++ wire items

-- A frame that is yielded holds its header and as many bytes as the header says.
pub record IsFrame (item : Item) : Type 0 where
  pub header : decode_mbap item.1 ≡ ok item.0
  pub lower : 2 ≤ item.0.length
  pub upper : item.0.length ≤ 260
  pub size : length item.1 ≡ 6 + item.0.length

-- How a run ends: with a buffer that holds no complete frame, or at a length field out of range.
abbrev pub Ending : Bytes → Option Exception → Type 0
Ending buffer none = next_frame buffer ≡ ok none
Ending buffer (some e) = (n : ℕ) × (e ≡ protocol_error n) × IsBad buffer n

pub record IsRun (buffer : Bytes) (fed : Fed) : Type 0 where
  pub conserved : buffer ≡ wire fed.frames ++ fed.buffer
  pub frames : All IsFrame fed.frames
  pub ending : Ending fed.buffer fed.raised

IsCut-IsFrame :
    (buffer : Bytes) (item : Item) (rest : Bytes) → IsCut buffer item rest → IsFrame item
IsCut-IsFrame buffer item rest c = record {
  header =
      sym (decode_mbap-append item.1 rest (omega (arith, c.size, c.lower)))
      ∙ ap decode_mbap (sym c.splits)
      ∙ c.header;
  lower = c.lower;
  upper = c.upper;
  size = c.size;
}

drain-IsRun : (buffer : Bytes) → IsRun buffer (drain buffer)
drain-IsRun =
    drain_induction IsRun (λ b e. record { conserved = refl; frames = tt; ending = e })
      (λ b x e. record { conserved = refl; frames = tt; ending = next_frame-eq-err b x e })
      (λ b item rest e r.
        let c = next_frame-IsCut b item rest e in
        record {
          conserved =
              c.splits
              ∙ ap (λ t. item.1 ++ t) r.conserved
              ∙ sym (append_assoc item.1 (wire (drain rest).frames) (drain rest).buffer);
          frames = (IsCut-IsFrame b item rest c, r.frames);
          ending = r.ending;
        })

-- A run of `feed` loses no byte and yields whole frames. It ends with no complete frame in the
-- buffer, unless it raised `ProtocolError` for the length field that the buffer begins with.
pub feed-IsRun : (buffer bytes : Bytes) → IsRun (buffer ++ bytes) (feed buffer bytes)
feed-IsRun buffer bytes = rw feed-drain (drain-IsRun (buffer ++ bytes))

-- After a run that raised nothing, less than the longest frame is pending.
pub pending-feed :
    (buffer bytes : Bytes)
    → (feed buffer bytes).raised ≡ none
    → pending (feed buffer bytes).buffer < 266
unfolding pending
pending-feed buffer bytes h =
    next_frame-eq-none (feed buffer bytes).buffer
      (subst (Ending (feed buffer bytes).buffer) h (feed-IsRun buffer bytes).ending)

-- The frames of a run take at least eight bytes each.
wire-size : (items : List Item) → All IsFrame items → 8 * length items ≤ length (wire items)
wire-size [] h = omega arith
wire-size (item ∷ items) h =
    omega (arith, h.0.size, h.0.lower, wire-size items h.1, length-append item.1 (wire items))

-- The loop of `feed` ends: with any fuel above the number of bytes in the buffer it comes to the run of `feed`, which
-- goes around at most once for every eight of them.
pub feed_loop-feed :
    (fuel : ℕ) (buffer bytes : Bytes)
    → length (buffer ++ bytes) < fuel
    → (feed_loop fuel (buffer ++ bytes) ≡ feed buffer bytes)
      × (8 * length (feed buffer bytes).frames ≤ length (buffer ++ bytes))
unfolding feed
feed_loop-feed fuel buffer bytes h =
    let run = drain-IsRun (buffer ++ bytes) in
    let size = wire-size (drain (buffer ++ bytes)).frames run.frames in
    (
      feed_loop_fuel fuel (suc (length (buffer ++ bytes))) (buffer ++ bytes) h (omega arith),
      unfold drain in
          omega (
            arith,
            size,
            ap length run.conserved,
            length-append (wire (drain (buffer ++ bytes)).frames) (drain (buffer ++ bytes)).buffer,
          ),
    )
