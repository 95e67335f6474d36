-- ===== src/Collab/Session/Ends.antt =====
-- How every call of the hub ends.
use golang_journey.Prelude.{
  ◌≡◌, refl, sym, ◌∙◌, ℕ, Bool, true, false, ◌&&◌, List, [], ◌∷◌, if◌then◌else◌, arith,
}
use golang_journey.Prelude.Map.{remove}
use golang_journey.Prelude.Text.{Text, same_text}
use golang_journey.Collab.Crdt.{RgaNode, text, apply}
use golang_journey.Collab.Session.{
  msg_insert, msg_delete, Message, Session, Document, Hub, new_hub, End, returned, failed, panicked,
  blocked, Json, get_or_create, join, leave, push_others, broadcast, dispatch, read_text, apply_op,
}
use golang_journey.Collab.Session.Calls.{
  get_or_create-doc_of, member, Agrees, new_hub-Agrees, get_or_create-Agrees, put-Agrees,
  again-Agrees,
}

-- The calls of the hub and of the documents that it hands out.
pub data Call : Type 0 where
  joining : Session → ℕ → Call
  leaving : Session → Call
  dispatching : Session → Message → Call
  reading : Text → Call
  applying : Text → RgaNode → Call

pub call : Json → Hub → Call → Hub × End
call json h (joining s now) = join json h s now
call json h (leaving s) = leave h s
call json h (dispatching s m) = dispatch json h s m
call json h (reading id) = read_text h id
call json h (applying id op) = apply_op h id op

-- The calls in their order, and how they end.
pub calls : Json → Hub → List Call → Hub × List End
calls json h [] = (h, [])
calls json h (c ∷ cs) =
    let (h', e) = call json h c in let (h'', es) = calls json h' cs in (h'', e ∷ es)

-- The message goes to the other sessions of the document.
unfoldable pub accepts : Json → Message → Bool
accepts json m =
    if same_text m.kind msg_insert
    then json.insert_ok m.payload
    else (if same_text m.kind msg_delete then json.delete_ok m.payload else false)

-- How a call ends, and which documents have been joined after it.
unfoldable pub ending : Json → List Text → Call → End
ending json joined (joining s now) = if member joined s.doc_id then blocked else panicked
ending json joined (leaving s) = if member joined s.doc_id then blocked else returned
ending json joined (dispatching s m) =
    if accepts json m && member joined m.doc_id then blocked else returned
ending json joined (reading id) = if member joined id then blocked else panicked
ending json joined (applying id op) = if member joined id then blocked else failed

abbrev pub joined_after : List Text → Call → List Text
joined_after joined (joining s now) = s.doc_id ∷ joined
joined_after joined (leaving s) = joined
joined_after joined (dispatching s m) = joined
joined_after joined (reading id) = joined
joined_after joined (applying id op) = joined

unfoldable pub endings : Json → List Text → List Call → List End
endings json joined [] = []
endings json joined (c ∷ cs) = ending json joined c ∷ endings json (joined_after joined c) cs

record After (joined : List Text) (e : End) (r : Hub × End) : Type 0 where
  pub ends : r.1 ≡ e
  pub agrees : Agrees joined r.0

if-After :
    (joined : List Text) (b : Bool) {e e' : End} {r r' : Hub × End}
    → (b ≡ true → After joined e r)
    → (b ≡ false → After joined e' r')
    → After joined (if b then e else e') (if b then r else r')
if-After joined true p q = p refl
if-After joined false p q = q refl

dispatch_step :
    (joined : List Text) (ins del i d there : Bool) {r q : Hub × End}
    → After joined (if there then blocked else returned) r
    → After joined returned q
    → After joined
        (if (if ins then i else (if del then d else false)) && there then blocked else returned)
        (if ins then (if i then r else q) else (if del then (if d then r else q) else q))
dispatch_step joined true del true d there p n = p
dispatch_step joined true del false d there p n = n
dispatch_step joined false true i true there p n = p
dispatch_step joined false true i false there p n = n
dispatch_step joined false false i d there p n = n

module _ (json : Json) (joined : List Text) (h : Hub) (a : Agrees joined h) where
  -- The document that a call works on is held just when it was joined.
  held-member : (id : Text) → (get_or_create h id).1.held ≡ member joined id
  held-member id = rw (get_or_create-doc_of h id) (a.held id)

  alone_lem :
      (id : Text) → (get_or_create h id).1.held ≡ false → (get_or_create h id).1.sessions ≡ []
  alone_lem id = rw (get_or_create-doc_of h id) (a.alone id)

  leave-After : (s : Session) → After joined (ending json joined (leaving s)) (leave h s)
  unfolding leave ending remove
  leave-After s = rw (← held-member s.doc_id) (
      if-After joined (get_or_create h s.doc_id).1.held
        (λ e. record { ends = refl; agrees = get_or_create-Agrees joined h s.doc_id a })
        (λ e. record {
          ends = refl;
          agrees =
              put-Agrees joined joined _ s.doc_id _ (get_or_create-Agrees joined h s.doc_id a)
                (held-member s.doc_id) (λ f. rw (alone_lem s.doc_id e) refl) (λ k ne. refl);
        }))

  join-After :
      (s : Session) (now : ℕ)
      → After (s.doc_id ∷ joined) (ending json joined (joining s now)) (join json h s now)
  unfolding join ending text
  join-After s now = rw (← held-member s.doc_id) (
      if-After (s.doc_id ∷ joined) (get_or_create h s.doc_id).1.held
        (λ e. record {
          ends = refl;
          agrees =
              again-Agrees joined _ s.doc_id (sym (held-member s.doc_id) ∙ e)
                (get_or_create-Agrees joined h s.doc_id a);
        })
        (λ e. record {
          ends = refl;
          agrees =
              put-Agrees joined (s.doc_id ∷ joined) _ s.doc_id _
                (get_or_create-Agrees joined h s.doc_id a) (ground arith) (λ f. cc f)
                (λ k ne. ground (arith, ne));
        }))

  push_others-nil :
      (h' : Hub) (d : Document) (m : Message) (exclude : Text)
      → d.sessions ≡ []
      → push_others h' d.sessions m exclude ≡ h'
  unfolding push_others
  push_others-nil h' d m exclude e = rw e refl

  broadcast-After :
      (id : Text) (m : Message) (exclude : Text)
      → After joined
          (if member joined id then blocked else returned)
          (broadcast (get_or_create h id).0 (get_or_create h id).1 m exclude)
  unfolding broadcast
  broadcast-After id m exclude = rw (← held-member id) (
      if-After joined (get_or_create h id).1.held
        (λ e. record { ends = refl; agrees = get_or_create-Agrees joined h id a })
        (λ e. record {
          ends = refl;
          agrees =
              rw (push_others-nil _ (get_or_create h id).1 m exclude (alone_lem id e))
                (get_or_create-Agrees joined h id a);
        }))

  read_text-After : (id : Text) → After joined (ending json joined (reading id)) (read_text h id)
  unfolding read_text ending text
  read_text-After id = rw (← held-member id) (
      if-After joined (get_or_create h id).1.held
        (λ e. record { ends = refl; agrees = get_or_create-Agrees joined h id a })
        (λ e. record { ends = refl; agrees = get_or_create-Agrees joined h id a }))

  apply_op-After :
      (id : Text) (op : RgaNode)
      → After joined (ending json joined (applying id op)) (apply_op h id op)
  unfolding apply_op ending apply
  apply_op-After id op = rw (← held-member id) (
      if-After joined (get_or_create h id).1.held
        (λ e. record { ends = refl; agrees = get_or_create-Agrees joined h id a })
        (λ e. record {
          ends = refl;
          agrees =
              put-Agrees joined joined _ id _ (get_or_create-Agrees joined h id a) (held-member id)
                (alone_lem id) (λ k ne. refl);
        }))

  dispatch-After :
      (s : Session) (m : Message)
      → After joined (ending json joined (dispatching s m)) (dispatch json h s m)
  unfolding dispatch ending accepts
  dispatch-After s m =
      dispatch_step joined (same_text m.kind msg_insert) (same_text m.kind msg_delete)
        (json.insert_ok m.payload) (json.delete_ok m.payload) (member joined m.doc_id)
        (broadcast-After m.doc_id m s.id)
        (record { ends = refl; agrees = get_or_create-Agrees joined h m.doc_id a })

  call-After : (c : Call) → After (joined_after joined c) (ending json joined c) (call json h c)
  unfolding call
  call-After (joining s now) = join-After s now
  call-After (leaving s) = leave-After s
  call-After (dispatching s m) = dispatch-After s m
  call-After (reading id) = read_text-After id
  call-After (applying id op) = apply_op-After id op

calls_from :
    (json : Json) (cs : List Call) (joined : List Text) (h : Hub)
    → Agrees joined h
    → ((calls json h cs).1 ≡ endings json joined cs) × ((calls json h cs).0.sent ≡ [])
unfolding calls endings
calls_from json [] joined h a = (refl, a.quiet)
calls_from json (c ∷ cs) joined h a =
    let first = call-After json joined h a c in
    let rest = calls_from json cs (joined_after joined c) (call json h c).0 first.agrees in
    (rw (first.ends, rest.0) refl, rest.1)

-- From a new hub, any sequence of Join, Leave, Dispatch and the documents' Text and Apply ends
-- call by call as the list of documents joined so far tells: on a document joined before, each of
-- them waits for ever, but for a Dispatch that drops its message; else Join and Text panic, Apply
-- fails, and Leave and Dispatch return. No message is ever sent to a session.
pub calls-endings :
    (json : Json) (cs : List Call)
    → ((calls json new_hub cs).1 ≡ endings json [] cs) × ((calls json new_hub cs).0.sent ≡ [])
calls-endings json cs = calls_from json cs [] new_hub new_hub-Agrees
