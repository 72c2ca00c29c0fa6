-- ===== src/Server/Tasks/Answers.antt =====
-- What a connection of modbus_sim/server.py has written, against the frames that it has read, in every interleaving of
-- the tasks.
pub mod Frame
pub mod Steps
use modbus_sim.Prelude.{
  ◌≡◌, ◌≢◌, refl, sym, ap, subst, ◌∙◌, Option, none, some, List, [], ◌∷◌, ◌++◌, append-nil,
  append_assoc, Bytes, IsBytes, All, drop, ◌⊎◌, inl, inr, ℕ, Option-cases, Bool-cases, ◌==◌, true,
  false, arith,
}
use modbus_sim.Result.{Exception, Result, ok, err}
use modbus_sim.Datastore.Store.{DataStore, get, units}
use modbus_sim.Datastore.Store.Lookup.{units-update, get-eq-some}
use modbus_sim.Datastore.Device.{Device}
use modbus_sim.Dispatcher.{process_pdu}
use modbus_sim.Frame.Mbap.{MbapHeader}
use modbus_sim.Generators.Floats.{Runtime}
use modbus_sim.Generators.{GeneratorBinding, update}
use modbus_sim.Server.Framer.{Item, Fed, feed}
use modbus_sim.Server.Framer.Loop.{drain, feed-drain}
use modbus_sim.Server.Framer.Chunks.{resumed, drain-append}
use modbus_sim.Server.Connection.{process_frame}
use modbus_sim.Server.Connection.Frame.{answer_adu}
use modbus_sim.Server.Tasks.{
  Connection, accepted, with_read, with_result, System, Step, accepts, reads, serves, closes, ticks,
  Reach, here, next,
}
use modbus_sim.Server.Tasks.Events.{Event, frame, replay}
use modbus_sim.Server.Tasks.Sound.{IsConnection, IsSound, All-member}

module _ (P : Runtime) (devices : DataStore) where
  -- What a connection has written for the frames that it served, against all that the server did, in order: nothing for
  -- a frame that is not Modbus or is for no device, else one ADU under its ids, with what the dispatcher
  -- returns for its PDU on the device of its unit as the events before it left it.
  pub data Answers : List (Event P) → List Item → List Bytes → Type 0 where
    unasked : Answers [] [] []
    elsewhere :
        (past : List (Event P)) (items : List Item) (written : List Bytes) (e : Event P)
        → Answers past items written
        → Answers (past ++ e ∷ []) items written
    dropped :
        (past : List (Event P)) (items : List Item) (written : List Bytes) (header : MbapHeader)
        (adu : Bytes)
        → Answers past items written
        → (header.protocol_id ≢ 0) ⊎ (get devices header.unit_id ≡ none)
        → Answers (past ++ frame header adu ∷ []) (items ++ (header, adu) ∷ []) written
    answered :
        (past : List (Event P)) (items : List Item) (written : List Bytes) (header : MbapHeader)
        (adu : Bytes) (device : Device) (pdu : Bytes)
        → Answers past items written
        → header.protocol_id ≡ 0
        → get devices header.unit_id ≡ some device
        → (process_pdu (replay P header.unit_id past device) (drop 7 adu)).0 ≡ ok pdu
        → Answers
            (past ++ frame header adu ∷ [])
            (items ++ (header, adu) ∷ [])
            (written ++ answer_adu header pdu ∷ [])

  -- The frames of all that was read, in order, are those that were served and those that wait; the buffer and
  -- the exception are those of one read of it all.
  pub record IsServing (past : List (Event P)) (c : Connection) : Type 0 where
    pub served : List Item
    pub frames : (feed [] c.received).frames ≡ served ++ c.queue
    pub raised : (feed [] c.received).raised ≡ c.raised
    pub buffer : c.raised ≡ none → (feed [] c.received).buffer ≡ c.buffer
    pub answers : Answers past served c.written

read_frames :
    (received buffer chunk : Bytes) (served : List Item)
    → (feed [] received).frames ≡ served
    → (feed [] received).raised ≡ none
    → (feed [] received).buffer ≡ buffer
    → feed [] (received ++ chunk) ≡ record {
      frames = served ++ (feed buffer chunk).frames;
      buffer = (feed buffer chunk).buffer;
      raised = (feed buffer chunk).raised;
    }
read_frames received buffer chunk served f r b =
    feed-drain [] (received ++ chunk)
    ∙ drain-append chunk received
    ∙ rw (← feed-drain [] received, r, f, b, feed-drain buffer chunk) refl

module _ (P : Runtime) (devices : DataStore) (past : List (Event P)) where
  pub with_read-IsServing :
      (c : Connection) (chunk : Bytes)
      → IsServing P devices past c
      → c.queue ≡ []
      → c.raised ≡ none
      → IsServing P devices past (with_read c chunk)
  with_read-IsServing c chunk i q r =
      let whole =
        read_frames c.received c.buffer chunk i.served
          (i.frames ∙ ap (λ f. i.served ++ f) q ∙ append-nil i.served) (i.raised ∙ r)
          (i.buffer r) in
      record {
        served = i.served;
        frames = ap (λ f. f.frames) whole;
        raised = ap (λ f. f.raised) whole;
        buffer = λ _. ap (λ f. f.buffer) whole;
        answers = i.answers;
      }

  -- What another task did.
  pub elsewhere-IsServing :
      (e : Event P) (c : Connection)
      → IsServing P devices past c
      → IsServing P devices (past ++ e ∷ []) c
  elsewhere-IsServing e c i = record {
    served = i.served;
    frames = i.frames;
    raised = i.raised;
    buffer = i.buffer;
    answers = elsewhere past i.served c.written e i.answers;
  }

  -- The frame at the head of the queue was dropped, or was answered by `adu`.
  abbrev pub Outcome : MbapHeader → Bytes → Option Bytes → Type 0
  Outcome header adu none = (header.protocol_id ≢ 0) ⊎ (get devices header.unit_id ≡ none)
  Outcome header adu (some sent) =
      (device : Device) × (pdu : Bytes) × (header.protocol_id ≡ 0)
      × (get devices header.unit_id ≡ some device)
      × ((process_pdu (replay P header.unit_id past device) (drop 7 adu)).0 ≡ ok pdu)
      × (sent ≡ answer_adu header pdu)

  pub with_result-IsServing :
      (c : Connection) (header : MbapHeader) (adu : Bytes) (items : List Item)
      (r : Result (Option Bytes)) (sent : Option Bytes)
      → r ≡ ok sent
      → c.queue ≡ (header, adu) ∷ items
      → Outcome header adu sent
      → IsServing P devices past c
      → IsServing P devices (past ++ frame header adu ∷ []) (with_result c items r)
  with_result-IsServing c header adu items (err e) sent same q o i = absurd (cc same)
  with_result-IsServing c header adu items (ok none) none same q o i = record {
    served = i.served ++ (header, adu) ∷ [];
    frames = i.frames ∙ rw (q, append_assoc i.served ((header, adu) ∷ []) items) refl;
    raised = i.raised;
    buffer = i.buffer;
    answers = dropped past i.served c.written header adu i.answers o;
  }
  with_result-IsServing c header adu items (ok (some x)) none same q o i = absurd (cc same)
  with_result-IsServing c header adu items (ok none) (some y) same q o i = absurd (cc same)
  with_result-IsServing c header adu items (ok (some x)) (some y) same q
        (device, pdu, modbus, found, answer, sent) i =
      record {
        served = i.served ++ (header, adu) ∷ [];
        frames = i.frames ∙ rw (q, append_assoc i.served ((header, adu) ∷ []) items) refl;
        raised = i.raised;
        buffer = i.buffer;
        answers =
            let e : x ≡ answer_adu header pdu = cc (same, sent) in
            rw e (
              answered past i.served c.written header adu device pdu i.answers modbus found answer);
      }
