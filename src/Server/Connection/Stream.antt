-- ===== src/Server/Connection/Stream.antt =====
-- Sessions of `_handle_client` and the ways to cut a stream of bytes into reads.
use modbus_sim.Prelude.{
  ◌≡◌, refl, sym, ap, ◌∙◌, fun_ext, ap₂, Option, none, some, List, [], ◌∷◌, ◌++◌, Bytes,
  append_assoc,
}
use modbus_sim.Result.{Exception, Result, ok, err}
use modbus_sim.Datastore.Store.{DataStore}
use modbus_sim.Server.Framer.{Item, Fed, feed}
use modbus_sim.Server.Framer.Chunks.{joined, feed_all, stream, feed_all-feed}
use modbus_sim.Server.Connection.{
  process_frame, Session, after, then_serve, process_frames, then_read, then_raise, handle_chunk,
  handle_client,
}

abbrev ended : List Bytes → DataStore → Option Exception → Session
ended written store raised = record { written = written; store = store; raised = raised }

after-then_read :
    (w v : List Bytes) (store : DataStore) (raised : Option Exception) (g : DataStore → Session)
    → after w (then_read (ended v store raised) g) ≡ then_read (after w (ended v store raised)) g
after-then_read w v store none g =
    ap (λ l. ended l (g store).store (g store).raised) (sym (append_assoc w v (g store).written))
after-then_read w v store (some e) g = refl

then_serve-read :
    (o : Result (Option Bytes) × DataStore) (f g : DataStore → Session)
    → then_serve o (λ s. then_read (f s) g) ≡ then_read (then_serve o f) g
then_serve-read (ok none, store) f g = refl
then_serve-read (ok (some adu), store) f g =
    after-then_read (adu ∷ []) (f store).written (f store).store (f store).raised g
then_serve-read (err e, store) f g = refl

process_frames-append :
    (xs ys : List Item) (store : DataStore)
    → process_frames (xs ++ ys) store ≡ then_read (process_frames xs store) (process_frames ys)
unfolding process_frames
process_frames-append [] ys store = refl
process_frames-append ((header, adu) ∷ xs) ys store =
    ap (then_serve (process_frame header adu store)) (fun_ext (process_frames-append xs ys))
    ∙ then_serve-read (process_frame header adu store) (process_frames xs) (process_frames ys)

after-then_raise :
    (w v : List Bytes) (store : DataStore) (raised more : Option Exception)
    → after w (then_raise (ended v store raised) more)
      ≡ then_raise (after w (ended v store raised)) more
after-then_raise w v store none more = refl
after-then_raise w v store (some e) more = refl

-- The frames of one read, then those of the reads that follow.
read_joined :
    (w : List Bytes) (store : DataStore) (ends : Option Exception) (g : DataStore → Session)
    (more : Option Exception)
    → then_read (then_raise (ended w store ends) none) (λ s. then_raise (g s) more)
      ≡ then_raise (then_read (ended w store ends) g) more
read_joined w store none g more =
    after-then_raise w (g store).written (g store).store (g store).raised more
read_joined w store (some e) g more = refl

-- A read that raised is the last.
read_raised :
    (w : List Bytes) (store : DataStore) (ends : Option Exception) (e : Exception)
    (g : DataStore → Session)
    → then_read (then_raise (ended w store ends) (some e)) g
      ≡ then_raise (ended w store ends) (some e)
read_raised w store none e g = refl
read_raised w store (some x) e g = refl

handle_chunk-joined :
    (raised : Option Exception) (fed rest : Fed) (store : DataStore)
    → fed.raised ≡ raised
    → then_read (handle_chunk fed store) (handle_chunk rest)
      ≡ handle_chunk (joined raised fed rest) store
unfolding handle_chunk
handle_chunk-joined none fed rest store e =
    let now = process_frames fed.frames store in
    rw (e, process_frames-append fed.frames rest.frames store)
      (read_joined now.written now.store now.raised (process_frames rest.frames) rest.raised)
handle_chunk-joined (some x) fed rest store e =
    let now = process_frames fed.frames store in
    rw e (read_raised now.written now.store now.raised x (handle_chunk rest))

-- A session is the frames of its reads, in order, up to the exception that ends them.
pub handle_client-feed_all :
    (buffer : Bytes) (chunks : List Bytes) (store : DataStore)
    → handle_client buffer chunks store ≡ handle_chunk (feed_all buffer chunks) store
unfolding handle_client feed_all
handle_client-feed_all buffer [] store = refl
handle_client-feed_all buffer (chunk ∷ chunks) store =
    let fed = feed buffer chunk in
    ap (then_read (handle_chunk fed store)) (fun_ext (handle_client-feed_all fed.buffer chunks))
    ∙ handle_chunk-joined fed.raised fed (feed_all fed.buffer chunks) store refl

-- The session of a stream of bytes, however it is cut into reads.
pub handle_client-feed :
    (chunks : List Bytes) (store : DataStore)
    → handle_client [] chunks store ≡ handle_chunk (feed [] (stream chunks)) store
handle_client-feed chunks store =
    let same = feed_all-feed chunks in
    handle_client-feed_all [] chunks store
    ∙ unfold handle_chunk in
      ap₂ (λ fs r. then_raise (process_frames fs store) r) same.frames same.raised

-- Two ways to cut one stream of bytes into reads give the same session: the same ADUs are written, the
-- store is left alike and the connection ends alike.
pub handle_client-stream :
    (cs ds : List Bytes) (store : DataStore)
    → stream cs ≡ stream ds
    → handle_client [] cs store ≡ handle_client [] ds store
handle_client-stream cs ds store e =
    handle_client-feed cs store
    ∙ ap (λ bytes. handle_chunk (feed [] bytes) store) e
    ∙ sym (handle_client-feed ds store)
