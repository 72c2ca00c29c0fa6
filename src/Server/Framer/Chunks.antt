-- ===== src/Server/Framer/Chunks.antt =====
-- `feed` on a stream that is cut into chunks.
use modbus_sim.Prelude.{
  ◌≡◌, refl, sym, ap, subst, ◌∙◌, Option, none, some, List, [], ◌∷◌, ◌++◌, Bytes, append_assoc,
  append-nil,
}
use modbus_sim.Result.{Exception, ok}
use modbus_sim.Server.Framer.{Item, next_frame, Fed, stopped, yielded, feed}
use modbus_sim.Server.Framer.Step.{next_frame-append, next_frame-eq-err, next_frame_bad-append}
use modbus_sim.Server.Framer.Loop.{
  drain, feed-drain, feed-IsRun, Ending, drain_lem, drain_induction,
}

empty_is_idle : next_frame [] ≡ ok none
unfolding next_frame
empty_is_idle = refl

-- The run that goes on from `fed` when `more` arrives. What was raised stays raised.
abbrev pub resumed : Option Exception → Fed → Bytes → Fed
resumed none fed more =
    let next = drain (fed.buffer ++ more) in
    record { frames = fed.frames ++ next.frames; buffer = next.buffer; raised = next.raised }
resumed (some e) fed more = record {
  frames = fed.frames;
  buffer = fed.buffer ++ more;
  raised = some e;
}

resumed-yielded :
    (raised : Option Exception) (item : Item) (fed : Fed) (more : Bytes)
    → resumed raised (yielded item fed) more ≡ yielded item (resumed raised fed more)
resumed-yielded none item fed more = refl
resumed-yielded (some e) item fed more = refl

pub drain-append :
    (more buffer : Bytes)
    → drain (buffer ++ more) ≡ resumed (drain buffer).raised (drain buffer) more
drain-append more =
    drain_induction (λ b fed. drain (b ++ more) ≡ resumed fed.raised fed more) (λ b e. refl)
      (λ b x e.
        let (n, same, bad) = next_frame-eq-err b x e in
        drain_lem (b ++ more) ∙ rw (next_frame_bad-append b more n bad, same))
      (λ b item rest e ih.
        drain_lem (b ++ more)
        ∙ rw (next_frame-append b more item rest e) (ap (yielded item) ih)
        ∙ sym (resumed-yielded (drain rest).raised item (drain rest) more))

-- The reads of a connection: each chunk is fed to the buffer that is left, until a run raises.
abbrev pub joined : Option Exception → Fed → Fed → Fed
joined none first next = record {
  frames = first.frames ++ next.frames;
  buffer = next.buffer;
  raised = next.raised;
}
joined (some e) first next = first

unfoldable pub feed_all : Bytes → List Bytes → Fed
feed_all buffer [] = stopped buffer none
feed_all buffer (chunk ∷ chunks) =
    let first = feed buffer chunk in joined first.raised first (feed_all first.buffer chunks)

-- All the bytes of a list of chunks.
abbrev pub stream : List Bytes → Bytes
stream [] = []
stream (chunk ∷ chunks) = chunk ++ stream chunks

-- Two runs yield the same frames and end alike. What is in the buffer counts only if the run
-- may go on.
pub record SameRun (a b : Fed) : Type 0 where
  pub frames : a.frames ≡ b.frames
  pub raised : a.raised ≡ b.raised
  pub buffer : a.raised ≡ none → a.buffer ≡ b.buffer

joined-resumed :
    (raised : Option Exception) (first : Fed) (chunks : List Bytes)
    → first.raised ≡ raised
    → (first.raised ≡ none
        → SameRun (feed_all first.buffer chunks) (drain (first.buffer ++ stream chunks)))
    → SameRun
        (joined raised first (feed_all first.buffer chunks))
        (resumed raised first (stream chunks))
joined-resumed none first chunks e h =
    let later = h e in
    record {
      frames = ap (λ fs. first.frames ++ fs) later.frames;
      raised = later.raised;
      buffer = later.buffer;
    }
joined-resumed (some x) first chunks e h = record {
  frames = refl;
  raised = e;
  buffer = λ quiet. absurd (cc (e, quiet));
}

idle_after :
    (fed : Fed) → Ending fed.buffer fed.raised → fed.raised ≡ none → next_frame fed.buffer ≡ ok none
idle_after fed ending quiet = subst (Ending fed.buffer) quiet ending

feed_all-SameRun :
    (buffer : Bytes) (chunks : List Bytes)
    → next_frame buffer ≡ ok none
    → SameRun (feed_all buffer chunks) (drain (buffer ++ stream chunks))
unfolding feed_all
feed_all-SameRun buffer [] idle =
    rw (append-nil buffer, drain_lem buffer, idle)
      (record { frames = refl; raised = refl; buffer = λ _. refl })
feed_all-SameRun buffer (chunk ∷ chunks) idle =
    let first = feed buffer chunk in
    let ending = (feed-IsRun buffer chunk).ending in
    rw (← append_assoc buffer chunk (stream chunks), drain-append, ← feed-drain buffer chunk)
      (joined-resumed first.raised first chunks refl
        (λ quiet. feed_all-SameRun first.buffer chunks (idle_after first ending quiet)))

-- Reading a stream chunk by chunk yields the frames, and the error, of reading it at once.
pub feed_all-feed : (chunks : List Bytes) → SameRun (feed_all [] chunks) (feed [] (stream chunks))
feed_all-feed chunks = rw feed-drain (feed_all-SameRun [] chunks empty_is_idle)

-- So two ways to cut one stream into chunks yield the same.
pub feed_all-stream :
    (cs ds : List Bytes)
    → stream cs ≡ stream ds
    → ((feed_all [] cs).frames ≡ (feed_all [] ds).frames)
      × ((feed_all [] cs).raised ≡ (feed_all [] ds).raised)
feed_all-stream cs ds e =
    let c = feed_all-feed cs in
    let d = feed_all-feed ds in
    (
      c.frames ∙ ap (λ s. (feed [] s).frames) e ∙ sym d.frames,
      c.raised ∙ ap (λ s. (feed [] s).raised) e ∙ sym d.raised,
    )
