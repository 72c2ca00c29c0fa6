-- ===== src/Server/Tasks/Sound.antt =====
-- What every interleaving of the tasks keeps.
use modbus_sim.Prelude.{
  ◌≡◌, subst, Option, none, some, List, [], ◌∷◌, ◌++◌, All, All-append, All-map, All-suffix, Bytes,
  IsByte, IsBytes,
}
use modbus_sim.Result.{Result, ok, err}
use modbus_sim.Frame.Mbap.RoundTrip.{decode_mbap-IsEncodable}
use modbus_sim.Datastore.Device.{IsValid}
use modbus_sim.Datastore.Store.Lookup.{All-get, All-update}
use modbus_sim.Generators.Floats.{Runtime}
use modbus_sim.Generators.Update.{update-IsWritten}
use modbus_sim.Config.Build.{IsBinding}
use modbus_sim.Server.Framer.{Item, feed}
use modbus_sim.Server.Framer.Loop.{IsFrame, feed-IsRun, wire}
use modbus_sim.Server.Connection.{process_frame}
use modbus_sim.Server.Connection.Frame.{AreValid, process_frame-IsSettled}
use modbus_sim.Server.Connection.Run.{AreBytes, AreBytes-wire, IsEnd, Ending-IsEnd}
use modbus_sim.Server.Tasks.{
  Connection, accepted, with_read, with_result, System, Step, accepts, reads, serves, closes, ticks,
  Reach, here, next,
}

-- A connection with whole frames to process, which was ended by nothing but a length field out of range.
pub record IsConnection (c : Connection) : Type 0 where
  pub buffer : IsBytes c.buffer
  pub queue : All IsFrame c.queue
  pub bytes : AreBytes c.queue
  pub raised : IsEnd c.raised

with_read-IsConnection :
    (c : Connection) (chunk : Bytes)
    → IsConnection c
    → IsBytes chunk
    → IsConnection (with_read c chunk)
with_read-IsConnection c chunk i h =
    let fed = feed c.buffer chunk in
    let run = feed-IsRun c.buffer chunk in
    let bytes = subst IsBytes run.conserved (All-append IsByte c.buffer chunk i.buffer h) in
    record {
      buffer = All-suffix IsByte (wire fed.frames) fed.buffer bytes;
      queue = run.frames;
      bytes = AreBytes-wire fed.frames fed.buffer bytes;
      raised = Ending-IsEnd fed.buffer fed.raised run.ending;
    }

with_result-IsConnection :
    (c : Connection) (items : List Item) (r : Result (Option Bytes)) (o : Option Bytes)
    → r ≡ ok o
    → IsConnection c
    → All IsFrame items
    → AreBytes items
    → IsConnection (with_result c items r)
with_result-IsConnection c items (ok none) o e i q b = record {
  buffer = i.buffer;
  queue = q;
  bytes = b;
  raised = i.raised;
}
with_result-IsConnection c items (ok (some adu)) o e i q b = record {
  buffer = i.buffer;
  queue = q;
  bytes = b;
  raised = i.raised;
}
with_result-IsConnection c items (err x) o e i q b = absurd (cc e)

-- A list with one of its members replaced.
pub All-replace {ℓ κ} :
    {A : Type ℓ} (Q : A → Type κ) (before after : List A) (a b : A)
    → All Q (before ++ a ∷ after)
    → (Q a → Q b)
    → All Q (before ++ b ∷ after)
All-replace Q [] after a b h f = (f h.0, h.1)
All-replace Q (x ∷ before) after a b h f = (h.0, All-replace Q before after a b h.1 f)

-- One member is replaced while the others come to satisfy another predicate.
pub All-turn {ℓ κ κ'} :
    {A : Type ℓ} (Q : A → Type κ) (R : A → Type κ') (before after : List A) (a b : A)
    → ((x : A) → Q x → R x)
    → All Q (before ++ a ∷ after)
    → (Q a → R b)
    → All R (before ++ b ∷ after)
All-turn Q R [] after a b g h f = (f h.0, All-map g after h.1)
All-turn Q R (x ∷ before) after a b g h f = (g x h.0, All-turn Q R before after a b g h.1 f)

pub All-remove {ℓ κ} :
    {A : Type ℓ} (Q : A → Type κ) (before after : List A) (a : A)
    → All Q (before ++ a ∷ after)
    → All Q (before ++ after)
All-remove Q [] after a h = h.1
All-remove Q (x ∷ before) after a h = (h.0, All-remove Q before after a h.1)

pub All-member {ℓ κ} :
    {A : Type ℓ} (Q : A → Type κ) (before after : List A) (a : A)
    → All Q (before ++ a ∷ after)
    → Q a
All-member Q [] after a h = h.0
All-member Q (x ∷ before) after a h = All-member Q before after a h.1

module _ (P : Runtime) where
  -- Valid devices, connections that may go on or were ended for a reason, and bindings with sound generators.
  pub record IsSound (s : System P) : Type 0 where
    pub store : AreValid s.store
    pub connections : All IsConnection s.connections
    pub bindings : All (IsBinding P) s.bindings

  Step-IsSound : {s t : System P} → Step P s t → IsSound s → IsSound t
  Step-IsSound (accepts s) i = record {
    store = i.store;
    connections =
        All-append IsConnection s.connections (accepted ∷ []) i.connections
          (record { buffer = tt; queue = tt; bytes = tt; raised = tt }, tt);
    bindings = i.bindings;
  }
  Step-IsSound (reads store before after bindings c chunk h q r) i = record {
    store = i.store;
    connections =
        All-replace IsConnection before after c _ i.connections
          (λ ic. with_read-IsConnection c chunk ic h);
    bindings = i.bindings;
  }
  Step-IsSound (serves store before after bindings c header adu items q) i =
      let ic = All-member IsConnection before after c i.connections in
      let frames = subst (All IsFrame) q ic.queue in
      let bytes = subst AreBytes q ic.bytes in
      let settled =
        process_frame-IsSettled header adu store i.store
          (decode_mbap-IsEncodable adu bytes.0 frames.0.header) bytes.0 in
      record {
        store = settled.store;
        connections = All-replace IsConnection before after c _ i.connections (λ ic.
            with_result-IsConnection c items (process_frame header adu store).0 settled.written
              settled.result ic frames.1 bytes.1);
        bindings = i.bindings;
      }
  Step-IsSound (closes store before after bindings c) i = record {
    store = i.store;
    connections = All-remove IsConnection before after c i.connections;
    bindings = i.bindings;
  }
  Step-IsSound (ticks store connections before after b device elapsed found) i =
      let (wrote, kept) =
        update-IsWritten P elapsed b device (All-member (IsBinding P) before after b i.bindings)
          (All-get IsValid store b.unit_id i.store found) in
      record {
        store = All-update IsValid store b.unit_id _ i.store wrote.device;
        connections = i.connections;
        bindings = All-replace (IsBinding P) before after b _ i.bindings (λ _. kept);
      }

  -- Whatever the order in which connections are accepted, read, served and closed and bindings updated, a sound
  -- system stays sound: its devices are valid, its generators within their bounds, and a connection is
  -- ended by nothing but its peer or a length field out of range.
  pub Reach-IsSound : {s t : System P} → Reach P s t → IsSound s → IsSound t
  Reach-IsSound here i = i
  Reach-IsSound (next r step) i = Step-IsSound step (Reach-IsSound r i)
