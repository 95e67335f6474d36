-- ===== src/Collab/Crdt.antt =====
-- projects/03-crdt-collab-backend/crdt/crdt.go: the operations that the source implements, those of
-- `RGA` that panic or fail being kept as such. A call under its own lock is one step.
pub mod Counts
mod Tests
use golang_journey.Prelude.{
  ℕ, ◌+◌, ◌%◌, Bool, true, false, ◌&&◌, ltb, List, [], ◌∷◌, Option, none, some, length,
  if◌then◌else◌,
}
use golang_journey.Prelude.Int64.{modulus, add_int}
use golang_journey.Prelude.Map.{lookup, insert, remove}
use golang_journey.Prelude.Text.{Text, Text-discrete}

-- `m[k]`, zero for a missing key.
abbrev pub count : List (Text × ℕ) → Text → ℕ
count m k = elim (lookup Text-discrete k m) [ none ↦ 0 | some n ↦ n ]

abbrev pub VClock : Type 0
VClock = List (Text × ℕ)

-- The loop of `Clone`, which fills a new map.
pub copy_into : VClock → VClock → VClock
copy_into c [] = c
copy_into c ((k, x) ∷ v) = copy_into (insert Text-discrete k x c) v

-- `VClock.Clone`
pub clone : VClock → VClock
clone v = copy_into [] v

-- `VClock.Increment`
pub increment : VClock → Text → VClock
increment v node =
    let next = clone v in insert Text-discrete node ((count next node + 1) % modulus) next

pub record PnCounter : Type 0 where
  pub positive : List (Text × ℕ)
  pub negative : List (Text × ℕ)

pub new_pn_counter : PnCounter
new_pn_counter = record { positive = []; negative = [] }

pub add_up : PnCounter → Text → ℕ → PnCounter
add_up c node delta = record c {
  positive = insert Text-discrete node (add_int (count c.positive node) delta) c.positive;
}

pub add_down : PnCounter → Text → ℕ → PnCounter
add_down c node delta = record c {
  negative = insert Text-discrete node (add_int (count c.negative node) delta) c.negative;
}

-- The tags of a value are the keys of a map.
abbrev pub OrSet : Type 0
OrSet = List (Text × List Text)

pub remove_value : OrSet → Text → OrSet
remove_value s value = remove Text-discrete value s

pub contains : OrSet → Text → Bool
contains s value = elim (lookup Text-discrete value s) [
  | none ↦ false
  | some tags ↦ ltb 0 (length tags)
]

pub values : OrSet → List Text
values [] = []
values ((v, tags) ∷ s) = let rest = values s in if ltb 0 (length tags) then v ∷ rest else rest

pub record RgaNodeId : Type 0 where
  pub seq : ℕ
  pub node_id : Text

pub record RgaNode : Type 0 where
  pub id : RgaNodeId
  pub insert_after : RgaNodeId
  pub char : ℕ
  pub deleted : Bool

pub record Rga : Type 0 where
  pub nodes : List RgaNode
  pub index : List (RgaNodeId × ℕ)
  pub seq_no : ℕ

pub new_rga : Rga
new_rga = record { nodes = []; index = []; seq_no = 0 }

-- `RGA.Text` panics: it is not yet implemented.
unfoldable pub text : Rga → Option Text
text r = none

-- `RGA.Apply` gives an error and changes nothing.
unfoldable pub apply : Rga → RgaNode → Rga × Bool
apply r op = (r, false)
