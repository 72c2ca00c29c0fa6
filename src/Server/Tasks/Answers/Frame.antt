-- ===== src/Server/Tasks/Answers/Frame.antt =====
-- What a frame comes to on a server of modbus_sim/server.py whose devices are as the events before it left them.
use modbus_sim.Prelude.{
  ℕ, ◌≡◌, ◌≢◌, refl, sym, subst, ◌∙◌, Option, none, some, List, ◌∷◌, Bytes, IsBytes, All, ◌++◌,
  drop, ◌⊎◌, inl, inr, Option-cases, Bool-cases, ◌==◌, arith,
}
use modbus_sim.Result.{Result, ok}
use modbus_sim.Datastore.Store.{DataStore, get, units}
use modbus_sim.Datastore.Store.Lookup.{units-update, get-eq-some, get-units, All-get}
use modbus_sim.Datastore.Device.{Device, IsValid}
use modbus_sim.Dispatcher.{process_pdu}
use modbus_sim.Dispatcher.Effect.{process_pdu-unit_id}
use modbus_sim.Frame.Mbap.{MbapHeader}
use modbus_sim.Frame.Mbap.RoundTrip.{IsEncodable, decode_mbap-IsEncodable}
use modbus_sim.Generators.Floats.{Runtime}
use modbus_sim.Generators.{GeneratorBinding}
use modbus_sim.Server.Framer.{Item}
use modbus_sim.Server.Framer.Loop.{IsFrame}
use modbus_sim.Server.Connection.Run.{AreBytes}
use modbus_sim.Server.Connection.{process_frame}
use modbus_sim.Server.Connection.Frame.{
  AreValid, IsServed, answer_adu, process_frame_dropped, process_frame_answered,
}
use modbus_sim.Server.Tasks.{Connection, system}
use modbus_sim.Server.Tasks.Sound.{IsConnection, IsSound, All-member}
use modbus_sim.Server.Tasks.Events.{Event, replay}
use modbus_sim.Server.Tasks.Answers.{Outcome}

-- The devices of a server are those that it started with, as the events of their units left them.
pub record IsReplayed (P : Runtime) (devices : DataStore) (past : List (Event P))
    (store : DataStore) : Type 0 where
  pub same_units : units store ≡ units devices
  pub replays :
      (u : ℕ) (device : Device)
      → get devices u ≡ some device
      → get store u ≡ some (replay P u past device)

module _ (P : Runtime) (devices : DataStore) (past : List (Event P)) where
  -- A device that the server has is one that it started with.
  IsReplayed-get :
      (store : DataStore) (u : ℕ) (now : Device)
      → IsReplayed P devices past store
      → get store u ≡ some now
      → (device : Device) × (get devices u ≡ some device) × (now ≡ replay P u past device)
  IsReplayed-get store u now i has = elim (Option-cases (get devices u)) [
    | inl absent ↦ absurd (cc (has, get-units devices store u (sym i.same_units) absent))
    | inr (device, found) ↦ (device, found, cc (has, i.replays u device found))
  ]

  -- What a frame came to.
  pub record HasOutcome (header : MbapHeader) (adu : Bytes) (o : Result (Option Bytes) × DataStore)
      : Type 0 where
    pub sent : Option Bytes
    pub result : o.0 ≡ ok sent
    pub outcome : Outcome P devices past header adu sent
    pub same_units : units o.1 ≡ units devices

  drop-HasOutcome :
      (header : MbapHeader) (adu : Bytes) (store : DataStore)
      → units store ≡ units devices
      → (header.protocol_id ≢ 0) ⊎ (get store header.unit_id ≡ none)
      → HasOutcome header adu (process_frame header adu store)
  drop-HasOutcome header adu store same (inl other) =
      rw (process_frame_dropped header adu store (inl other))
        (record { sent = none; result = refl; outcome = inl other; same_units = same })
  drop-HasOutcome header adu store same (inr absent) =
      rw (process_frame_dropped header adu store (inr absent)) (record {
        sent = none;
        result = refl;
        outcome = inr (get-units store devices header.unit_id same absent);
        same_units = same;
      })

  answer-HasOutcome :
      (header : MbapHeader) (adu : Bytes) (store : DataStore) (now : Device)
      → IsReplayed P devices past store
      → IsServed header adu store now
      → HasOutcome header adu (process_frame header adu store)
  answer-HasOutcome header adu store now i asked =
      let (pdu, sent, out) = process_frame_answered header adu store now asked in
      let (device, found, same) = IsReplayed-get store header.unit_id now i asked.found in
      rw out (record {
        sent = some (answer_adu header pdu);
        result = refl;
        outcome = (
          device,
          pdu,
          asked.modbus,
          found,
          subst (λ d. (process_pdu d (drop 7 adu)).0 ≡ ok pdu) same sent,
          refl,
        );
        same_units =
            units-update store header.unit_id _ (
              process_pdu-unit_id now (drop 7 adu)
              ∙ (get-eq-some store header.unit_id now asked.found).0)
            ∙ i.same_units;
      })

  process_frame-HasOutcome :
      (header : MbapHeader) (adu : Bytes) (store : DataStore)
      → IsReplayed P devices past store
      → AreValid store
      → IsEncodable header
      → IsBytes adu
      → HasOutcome header adu (process_frame header adu store)
  process_frame-HasOutcome header adu store i valid fits bytes =
      elim (Bool-cases (header.protocol_id == 0)) [
        | inr other ↦ drop-HasOutcome header adu store i.same_units (inl (λ e. ground arith))
        | inl modbus ↦ elim (Option-cases (get store header.unit_id)) [
          | inl absent ↦ drop-HasOutcome header adu store i.same_units (inr absent)
          | inr (now, found) ↦ answer-HasOutcome header adu store now i (record {
            fits = fits;
            modbus = ground arith;
            found = found;
            valid = All-get IsValid store header.unit_id valid found;
            bytes = bytes;
          })
        ]
      ]

  pub serves-HasOutcome :
      (store : DataStore) (before after : List Connection) (bindings : List (GeneratorBinding P))
      (c : Connection) (header : MbapHeader) (adu : Bytes) (items : List Item)
      → c.queue ≡ (header, adu) ∷ items
      → IsSound P (system P store (before ++ c ∷ after) bindings)
      → IsReplayed P devices past store
      → HasOutcome header adu (process_frame header adu store)
  serves-HasOutcome store before after bindings c header adu items q i r =
      let ic = All-member IsConnection before after c i.connections in
      let frames = subst (All IsFrame) q ic.queue in
      let bytes = subst AreBytes q ic.bytes in
      process_frame-HasOutcome header adu store r i.store
        (decode_mbap-IsEncodable adu bytes.0 frames.0.header) bytes.0
