-- ===== src/Collab/Session/Calls.antt =====
-- The documents that the calls of the hub see, and what holds between the calls.
use golang_journey.Prelude.{
  ◌≡◌, ◌≢◌, refl, sym, ◌∙◌, ap, Bool, true, false, List, [], ◌∷◌, Option, none, some, ite, arith,
  if◌then◌else◌,
}
use golang_journey.Prelude.Map.{lookup, lookup-insert}
use golang_journey.Prelude.Text.{Text, Text-discrete, same_text}
use golang_journey.Collab.Session.{Document, new_document, Hub, new_hub, put, get_or_create}

abbrev pub or_new : Text → Option Document → Document
or_new id none = new_document id
or_new id (some d) = d

-- A document that is not there is as a new one.
abbrev pub doc_of : Hub → Text → Document
doc_of h id = or_new id (lookup Text-discrete id h.docs)

-- What both sides of a decision have, it has.
ite-both {κ} :
    {A P : Type 0} (Q : A → Type κ) (p : Dec P) {x y : A} → (P → Q x) → (¬ P → Q y) → Q (ite p x y)
ite-both Q (yes e) f g = f e
ite-both Q (no ne) f g = g ne

or_new-ite :
    {P : Type 0} (p : Dec P) (k : Text) (d : Document) (o : Option Document)
    → or_new k (ite p (some d) o) ≡ ite p d (or_new k o)
or_new-ite (yes e) k d o = refl
or_new-ite (no ne) k d o = refl

pub get_or_create-doc_of : (h : Hub) (id : Text) → (get_or_create h id).1 ≡ doc_of h id
unfolding get_or_create
get_or_create-doc_of h id = ground arith

doc_of-put :
    (h : Hub) (id : Text) (d : Document) (k : Text)
    → doc_of (put h id d) k ≡ ite (Text-discrete id k) d (doc_of h k)
unfolding put
doc_of-put h id d k =
    ap (or_new k) (lookup-insert Text-discrete id k d h.docs)
    ∙ or_new-ite (Text-discrete id k) k d (lookup Text-discrete k h.docs)

doc_of-get_or_create : (h : Hub) (id k : Text) → doc_of (get_or_create h id).0 k ≡ doc_of h k
unfolding get_or_create
doc_of-get_or_create h id k = ground (arith, doc_of-put h id (new_document id) k)

sent-get_or_create : (h : Hub) (id : Text) → (get_or_create h id).0.sent ≡ h.sent
unfolding get_or_create put
sent-get_or_create h id = ground arith

abbrev pub member : List Text → Text → Bool
member [] k = false
member (id ∷ ids) k = let rest = member ids k in if same_text id k then true else rest

-- Nothing is sent, the documents joined are those held, and the others have no sessions.
pub record Agrees (joined : List Text) (h : Hub) : Type 0 where
  pub quiet : h.sent ≡ []
  pub held : (k : Text) → (doc_of h k).held ≡ member joined k
  pub alone : (k : Text) → (doc_of h k).held ≡ false → (doc_of h k).sessions ≡ []

pub new_hub-Agrees : Agrees [] new_hub
unfolding new_hub lookup new_document
new_hub-Agrees = record { quiet = refl; held = λ k. refl; alone = λ k h. refl }

pub get_or_create-Agrees :
    (joined : List Text) (h : Hub) (id : Text)
    → Agrees joined h
    → Agrees joined (get_or_create h id).0
get_or_create-Agrees joined h id a = record {
  quiet = sent-get_or_create h id ∙ a.quiet;
  held = λ k. rw (doc_of-get_or_create h id k) (a.held k);
  alone = λ k. rw (doc_of-get_or_create h id k) (a.alone k);
}

pub put-Agrees :
    (joined joined' : List Text) (h : Hub) (id : Text) (d : Document)
    → Agrees joined h
    → d.held ≡ member joined' id
    → (d.held ≡ false → d.sessions ≡ [])
    → ((k : Text) → id ≢ k → member joined' k ≡ member joined k)
    → Agrees joined' (put h id d)
unfolding put
put-Agrees joined joined' h id d a held alone others = record {
  quiet = a.quiet;
  held = λ k. rw (doc_of-put h id d k) (
      ite-both (λ (x : Document). x.held ≡ member joined' k) (Text-discrete id k)
        (λ e. rw (← e) held) (λ ne. a.held k ∙ sym (others k ne)));
  alone = λ k. rw (doc_of-put h id d k) (
      ite-both (λ (x : Document). x.held ≡ false → x.sessions ≡ []) (Text-discrete id k)
        (λ e. alone) (λ ne. a.alone k));
}

pub again-Agrees :
    (joined : List Text) (h : Hub) (id : Text)
    → member joined id ≡ true
    → Agrees joined h
    → Agrees (id ∷ joined) h
again-Agrees joined h id there a = record {
  quiet = a.quiet;
  held = λ k.
      a.held k
      ∙ sym (elim (Text-discrete id k) [
        | yes e ↦ let same : member joined k ≡ true = rw (← e) there in ground (arith, same)
        | no ne ↦ ground (arith, ne)
      ]);
  alone = a.alone;
}
