-- ===== src/Tsdb/Db.antt =====
-- projects/06-timeseries-db/tsdb/db.go. A string is the list of its code points. The list `chunks` of a
-- series has its head and nothing else, since no code rotates it. A call of the database is one step;
-- `sort.Slice` is a parameter. Open and Close have no effect on what is kept.
pub mod Keys
pub mod Queries
mod Tests
use Prim.Native.Nat.{bit_xor}
use golang_journey.Prelude.{
  ℕ, zero, suc, ◌*◌, ◌%◌, Bool, true, false, ◌&&◌, List, [], ◌∷◌, ◌++◌, Option, none, some, ite,
  if◌then◌else◌, ℕ_discrete,
}
use golang_journey.Prelude.Int64.{modulus, le_int}
use golang_journey.Prelude.Map.{lookup, insert}
use golang_journey.Prelude.Text.{Text, bytes, same_text}
use golang_journey.Tsdb.Chunk.{
  Chunk, Done, returned, panicked, new_chunk, append, Iterator, new_iterator, next_sample,
}

pub record Label : Type 0 where
  pub name : Text
  pub value : Text

abbrev pub Labels : Type 0
Labels = List Label

pub show_rest : Labels → Text
show_rest [] = []
show_rest (l ∷ ls) = bytes "," ++ l.name ++ bytes "=" ++ l.value ++ show_rest ls

-- `Labels.String`
pub show : Labels → Text
show [] = bytes "{}"
show (l ∷ ls) = bytes "{" ++ l.name ++ bytes "=" ++ l.value ++ show_rest ls ++ bytes "}"

-- The inner loop of `Hash`.
pub hash_text : ℕ → Text → ℕ
hash_text h [] = h
hash_text h (c ∷ s) = hash_text (bit_xor h c * 1099511628211 % modulus) s

pub hash_labels : ℕ → Labels → ℕ
hash_labels h [] = h
hash_labels h (l ∷ ls) = hash_labels (hash_text h (l.name ++ bytes "=" ++ l.value ++ bytes ",")) ls

pub hash : Labels → ℕ
hash = hash_labels 14695981039346656037

pub record Sample : Type 0 where
  pub ts : ℕ
  pub val : ℕ

pub record Series : Type 0 where
  pub labels : Labels
  pub head : Chunk

pub new_series : Labels → Series
new_series labels = record { labels = labels; head = new_chunk }

-- What a call that changes a part does to the whole.
pub within : {S T : Type 0} → (S → T) → Done S → Done T
within whole (returned s) = returned (whole s)
within whole (panicked s) = panicked (whole s)

pub append_sample : Series → ℕ → ℕ → Done Series
append_sample s ts v = within (λ c. record s { head = c }) (append s.head ts v)

-- The loop over an iterator, for a number of rounds.
pub collect : ℕ → ℕ → ℕ → Iterator → List Sample
collect zero min_ts max_ts it = []
collect (suc n) min_ts max_ts it =
    let (it', more) = next_sample it in
    let rest = collect n min_ts max_ts it' in
    if more
    then (if le_int min_ts it'.cur_ts && le_int it'.cur_ts max_ts
        then record { ts = it'.cur_ts; val = it'.cur_val } ∷ rest
        else rest)
    else []

-- `Samples`
pub samples : ℕ → Series → ℕ → ℕ → List Sample
samples rounds s min_ts max_ts = collect rounds min_ts max_ts (new_iterator s.head)

pub record Db : Type 0 where
  pub series : List (ℕ × Series)

pub empty_db : Db
empty_db = record { series = [] }

pub append_all : Series → List Sample → Done Series
append_all s [] = returned s
append_all s (x ∷ xs) = elim (append_sample s x.ts x.val) [
  | returned s' ↦ append_all s' xs
  | panicked s' ↦ panicked s'
]

pub find_or_new : Db → Labels → Series
find_or_new db labels = elim (lookup ℕ_discrete (hash labels) db.series) [
  | none ↦ new_series labels
  | some s ↦ s
]

-- `Write` of some samples, in their order.
pub write_sorted : Db → Labels → List Sample → Done Db
write_sorted db labels xs =
    within (λ s. record db { series = insert ℕ_discrete (hash labels) s db.series })
      (append_all (find_or_new db labels) xs)

pub write : (List Sample → List Sample) → Db → Labels → List Sample → Done Db
write sort db labels [] = returned db
write sort db labels (x ∷ xs) = write_sorted db labels (sort (x ∷ xs))

-- The two loops of `matchesSelector`.
pub has_label : Label → Labels → Bool
has_label sel [] = false
has_label sel (l ∷ ls) =
    let rest = has_label sel ls in
    if same_text l.name sel.name && same_text l.value sel.value then true else rest

pub matches_selector : Labels → Labels → Bool
matches_selector labels [] = true
matches_selector labels (sel ∷ sels) =
    let rest = matches_selector labels sels in if has_label sel labels then rest else false

-- The loop of `Query` over the entries of the map.
pub select : Labels → List (ℕ × Series) → List Series
select selector [] = []
select selector ((h, s) ∷ entries) =
    let rest = select selector entries in
    if matches_selector s.labels selector then s ∷ rest else rest

-- The source takes the range of times and does not read it.
pub query : Db → Labels → ℕ → ℕ → List Series
query db selector min_ts max_ts = select selector db.series
