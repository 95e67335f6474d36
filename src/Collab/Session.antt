-- ===== src/Collab/Session.antt =====
-- projects/03-crdt-collab-backend/session/session.go. A call of the hub is one step: what one goroutine
-- does under a mutex no other sees half done. A mutex that a panic leaves locked stays so, and the
-- server of net/http goes on after the panic. The decoders and `json.Marshal` are parameters, and a
-- `Send`, which the log `sent` records, is expected to return; its error is only logged.
pub mod Calls
pub mod Ends
mod Tests
use golang_journey.Prelude.{
  ℕ, Bool, true, false, List, [], ◌∷◌, ◌++◌, Option, none, some, if◌then◌else◌,
}
use golang_journey.Prelude.Map.{lookup, insert, remove}
use golang_journey.Prelude.Text.{Text, Text-discrete, bytes, same_text}
use golang_journey.Collab.Crdt.{Rga, RgaNode, new_rga, text, apply}

abbrev pub msg_insert : Text
msg_insert = bytes "insert"

abbrev pub msg_delete : Text
msg_delete = bytes "delete"

abbrev pub msg_snapshot : Text
msg_snapshot = bytes "snapshot"

pub record Message : Type 0 where
  pub doc_id : Text
  pub kind : Text
  pub payload : Text
  pub clock : List (Text × ℕ)
  pub sender_id : Text
  pub ts : ℕ

pub record SnapshotPayload : Type 0 where
  pub text : Text
  pub clock : List (Text × ℕ)

pub record Session : Type 0 where
  pub id : Text
  pub doc_id : Text
  pub node_id : Text

-- `held` is whether a panic has left `mu` locked.
pub record Document : Type 0 where
  pub id : Text
  pub rga : Rga
  pub sessions : List (Text × Session)
  pub held : Bool

pub new_document : Text → Document
new_document id = record { id = id; rga = new_rga; sessions = []; held = false }

pub record Hub : Type 0 where
  pub docs : List (Text × Document)
  pub sent : List (Session × Message)

pub new_hub : Hub
new_hub = record { docs = []; sent = [] }

-- How a call ends: it returns, returns an error, panics, or waits for ever.
pub data End : Type 0 where
  returned failed panicked blocked : End

-- `encoding/json`: whether the payload of an insert and of a delete is decoded, and the encoder.
pub record Json : Type 0 where
  pub insert_ok : Text → Bool
  pub delete_ok : Text → Bool
  pub marshal : SnapshotPayload → Text

-- `h.docs[id] = d`, and a change of the document that is there.
pub put : Hub → Text → Document → Hub
put h id d = record h { docs = insert Text-discrete id d h.docs }

pub get_or_create : Hub → Text → Hub × Document
get_or_create h id = elim (lookup Text-discrete id h.docs) [
  | some d ↦ (h, d)
  | none ↦ let d = new_document id in (put h id d, d)
]

pub push : Hub → Session → Message → Hub
push h s msg = record h { sent = h.sent ++ (s, msg) ∷ [] }

pub snapshot : Json → Session → Text → ℕ → Message
snapshot json sess t now = record {
  doc_id = sess.doc_id;
  kind = msg_snapshot;
  payload = json.marshal (record { text = t; clock = [] });
  clock = [];
  sender_id = [];
  ts = now;
}

pub join : Json → Hub → Session → ℕ → Hub × End
join json h sess now =
    let (h', doc) = get_or_create h sess.doc_id in
    let doc' : Document = record doc {
      sessions = insert Text-discrete sess.id sess doc.sessions;
    } in
    if doc.held then (h', blocked) else elim (text doc'.rga) [
      | none ↦ (put h' sess.doc_id (record doc' { held = true }), panicked)
      | some t ↦ (push (put h' sess.doc_id doc') sess (snapshot json sess t now), returned)
    ]

pub leave : Hub → Session → Hub × End
leave h sess =
    let (h', doc) = get_or_create h sess.doc_id in
    let doc' : Document = record doc { sessions = remove Text-discrete sess.id doc.sessions } in
    if doc.held then (h', blocked) else (put h' sess.doc_id doc', returned)

-- The loop of `Broadcast`.
pub push_others : Hub → List (Text × Session) → Message → Text → Hub
push_others h [] msg exclude = h
push_others h ((id, s) ∷ sessions) msg exclude =
    push_others (if same_text id exclude then h else push h s msg) sessions msg exclude

pub broadcast : Hub → Document → Message → Text → Hub × End
broadcast h doc msg exclude =
    if doc.held then (h, blocked) else (push_others h doc.sessions msg exclude, returned)

pub dispatch : Json → Hub → Session → Message → Hub × End
dispatch json h sess msg =
    let (h', doc) = get_or_create h msg.doc_id in
    if same_text msg.kind msg_insert
    then (if json.insert_ok msg.payload then broadcast h' doc msg sess.id else (h', returned))
    else (if same_text msg.kind msg_delete
        then (if json.delete_ok msg.payload then broadcast h' doc msg sess.id else (h', returned))
        else (h', returned))

-- `GetOrCreate(id).Text()`: the deferred unlock runs after the panic.
pub read_text : Hub → Text → Hub × End
read_text h id =
    let (h', doc) = get_or_create h id in
    if doc.held
    then (h', blocked)
    else elim (text doc.rga) [ none ↦ (h', panicked) | some t ↦ (h', returned) ]

-- `GetOrCreate(id).Apply(op)`
pub apply_op : Hub → Text → RgaNode → Hub × End
apply_op h id op =
    let (h', doc) = get_or_create h id in
    let (rga, fine) = apply doc.rga op in
    if doc.held
    then (h', blocked)
    else (put h' id (record doc { rga = rga }), if fine then returned else failed)
