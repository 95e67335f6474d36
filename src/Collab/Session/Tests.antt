-- ===== src/Collab/Session/Tests.antt =====
-- Two clients of one document, and one of another.
use golang_journey.Prelude.{◌≡◌, refl, true, false, List, [], ◌∷◌}
use golang_journey.Prelude.Text.{Text-discrete, bytes}
use golang_journey.Collab.Session.{
  Session, Message, Json, new_hub, returned, panicked, blocked, msg_insert,
}
use golang_journey.Collab.Session.Ends.{
  Call, joining, leaving, dispatching, reading, calls, endings, ending, accepts, calls-endings,
}

abbrev json : Json
json = record { insert_ok = λ t. true; delete_ok = λ t. false; marshal = λ p. [] }

abbrev ann : Session
ann = record { id = bytes "1"; doc_id = bytes "d"; node_id = bytes "x" }

abbrev bob : Session
bob = record { id = bytes "2"; doc_id = bytes "d"; node_id = bytes "y" }

abbrev insertion : Message
insertion = record {
  doc_id = bytes "d";
  kind = msg_insert;
  payload = [];
  clock = [];
  sender_id = bytes "1";
  ts = 0;
}

abbrev two_clients : List Call
two_clients =
    leaving ann
    ∷ joining ann 0
    ∷ joining bob 1
    ∷ dispatching ann insertion
    ∷ leaving ann
    ∷ reading (bytes "e")
    ∷ []

calls-endings_example :
    ((calls json new_hub two_clients).1 ≡ endings json [] two_clients)
    × ((calls json new_hub two_clients).0.sent ≡ [])
calls-endings_example = calls-endings json two_clients

-- After the first `Join` every call on the document waits for ever.
ends :
    endings json [] two_clients ≡ returned ∷ panicked ∷ blocked ∷ blocked ∷ blocked ∷ panicked ∷ []
unfolding endings ending accepts Text-discrete
ends = refl
