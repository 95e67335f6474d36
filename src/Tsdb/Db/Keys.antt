-- ===== src/Tsdb/Db/Keys.antt =====
-- Under which key a series is kept, and which label sets share one.
use golang_journey.Prelude.{
  ℕ, ◌≡◌, inl, inr, refl, sym, ap, ◌∙◌, List, [], ◌∷◌, ◌++◌, some, arith, ℕ_discrete, if_neg,
  if_pos, ◌≢◌, Bool, true, false,
}
use golang_journey.Prelude.Map.{lookup, insert, lookup-insert}
use golang_journey.Prelude.Text.{Text, bytes}
use golang_journey.Tsdb.Chunk.{Chunk, Done, Done-cases, returned, panicked, append, and_then}
use golang_journey.Tsdb.Db.{
  Labels, Sample, Series, Db, hash_text, hash_labels, hash, within, append_sample, append_all,
  find_or_new, write_sorted, write,
}

-- The state that a call leaves, whichever way it ends.
abbrev pub left : {S : Type 0} → Done S → S
left (returned s) = s
left (panicked s) = s

-- The keys of the map, each with the labels of its series.
abbrev pub keys_of : List (ℕ × Series) → List (ℕ × Labels)
keys_of [] = []
keys_of ((h, s) ∷ m) = (h, s.labels) ∷ keys_of m

insert-keys :
    (h : ℕ) (s s' : Series) (m : List (ℕ × Series))
    → lookup ℕ_discrete h m ≡ some s
    → s'.labels ≡ s.labels
    → keys_of (insert ℕ_discrete h s' m) ≡ keys_of m
unfolding lookup insert
insert-keys h s s' [] l e = cc
insert-keys h s s' ((k, x) ∷ m) l e = elim (ℕ_discrete k h) [
  | yes same ↦ let labels : x ≡ s = ground (arith, l, same) in ground (arith, same, labels, e)
  | no ne ↦
      rw (if_neg _ ne) (ap (◌∷◌ (k, x.labels)) (insert-keys h s s' m (ground (arith, l, ne)) e))
]

-- The text that `Hash` reads.
abbrev pub flat : Labels → Text
flat [] = []
flat (l ∷ ls) = (l.name ++ bytes "=" ++ l.value ++ bytes ",") ++ flat ls

hash_text-append : (s t : Text) (h : ℕ) → hash_text h (s ++ t) ≡ hash_text (hash_text h s) t
unfolding hash_text
hash_text-append [] t h = refl
hash_text-append (c ∷ s) t h = hash_text-append s t _

hash_labels-flat : (ls : Labels) (h : ℕ) → hash_labels h ls ≡ hash_text h (flat ls)
unfolding hash_labels hash_text
hash_labels-flat [] h = refl
hash_labels-flat (l ∷ ls) h =
    hash_labels-flat ls _
    ∙ sym (hash_text-append (l.name ++ bytes "=" ++ l.value ++ bytes ",") (flat ls) h)

hash-flat : (ls ls' : Labels) → flat ls ≡ flat ls' → hash ls ≡ hash ls'
unfolding hash
hash-flat ls ls' e = hash_labels-flat ls _ ∙ ap (hash_text _) e ∙ sym (hash_labels-flat ls' _)

-- The samples appended to a chunk one after the other, until one panics.
pub append_each : Chunk → List Sample → Done Chunk
append_each c [] = returned c
append_each c (x ∷ xs) = and_then (append c x.ts x.val) (λ c'. append_each c' xs)

-- Whether a call returns.
abbrev pub returns : {S : Type 0} → Done S → Bool
returns (returned s) = true
returns (panicked s) = false

append_all-each :
    (s : Series) (xs : List Sample)
    → append_all s xs ≡ within (λ c. record s { head = c }) (append_each s.head xs)
unfolding append_all append_each append_sample within and_then
append_all-each s [] = refl
append_all-each s (x ∷ xs) = elim (Done-cases (append s.head x.ts x.val)) [
  | inl (c, e) ↦
      rw (append_all, append_sample, e, within, append_each, and_then)
        (append_all-each (record s { head = c }) xs)
  | inr (c, e) ↦ rw (append_all, append_sample, e, within, append_each, and_then) refl
]

-- What a Write leaves, where the series `s` is under the hash of the labels.
pub record Writes (labels : Labels) (s : Series) (xs : List Sample) (db : Db) (d : Done Db)
    : Type 0 where
  pub written :
      lookup ℕ_discrete (hash labels) (left d).series
      ≡ some (record s { head = left (append_each s.head xs) })
  pub others :
      (k : ℕ)
      → hash labels ≢ k
      → lookup ℕ_discrete k (left d).series ≡ lookup ℕ_discrete k db.series
  pub same_keys : keys_of (left d).series ≡ keys_of db.series
  pub ends : returns d ≡ returns (append_each s.head xs)

stored-Writes :
    (labels : Labels) (s : Series) (xs : List Sample) (db : Db) {h : ℕ}
    → hash labels ≡ h
    → lookup ℕ_discrete h db.series ≡ some s
    → Writes labels s xs db (
        within
          (λ s'. record db { series = insert ℕ_discrete h s' db.series })
          (within (λ c. record s { head = c }) (append_each s.head xs)))
unfolding within
stored-Writes labels s xs db {h} one found =
    let kept : (c : Chunk)
        → lookup ℕ_discrete (hash labels) (insert ℕ_discrete h (record s { head = c }) db.series)
          ≡ some (record s { head = c }) =
      λ c.
        lookup-insert ℕ_discrete h (hash labels) (record s { head = c }) db.series
        ∙ if_pos (ℕ_discrete h (hash labels)) (sym one) _
            (lookup ℕ_discrete (hash labels) db.series) in
    let apart : (c : Chunk) (k : ℕ)
        → hash labels ≢ k
        → lookup ℕ_discrete k (insert ℕ_discrete h (record s { head = c }) db.series)
          ≡ lookup ℕ_discrete k db.series =
      λ c k ne.
        lookup-insert ℕ_discrete h k (record s { head = c }) db.series
        ∙ if_neg (ℕ_discrete h k) (λ e. ne (one ∙ e)) (some (record s { head = c })) _ in
    let keys : (c : Chunk)
        → keys_of (insert ℕ_discrete h (record s { head = c }) db.series) ≡ keys_of db.series =
      λ c. insert-keys h s (record s { head = c }) db.series found refl in
    elim (Done-cases (append_each s.head xs)) [
      | inl (c, e) ↦
          rw (e, within)
            (record {
              written = rw e (kept c);
              others = apart c;
              same_keys = keys c;
              ends = rw e refl;
            })
      | inr (c, e) ↦
          rw (e, within)
            (record {
              written = rw e (kept c);
              others = apart c;
              same_keys = keys c;
              ends = rw e refl;
            })
    ]

-- If the hashed texts of two label sets are the same and a series is kept under the hash of the
-- first, a Write for the second, with a sort that leaves no sample of none, appends the sorted
-- samples one after the other to the head of the kept series, up to the first Append that panics,
-- and panics just when one does. The kept series has its old labels, every other series is as
-- before, and no series is added.
pub write-Writes :
    (sort : List Sample → List Sample) (db : Db) (labels labels' : Labels) (xs : List Sample)
    (s : Series)
    → sort [] ≡ []
    → lookup ℕ_discrete (hash labels) db.series ≡ some s
    → flat labels ≡ flat labels'
    → Writes labels s (sort xs) db (write sort db labels' xs)
unfolding write find_or_new write_sorted append_each
write-Writes sort db labels labels' [] s empty found same =
    rw (empty, append_each)
      (record { written = found; others = λ k ne. refl; same_keys = refl; ends = refl })
write-Writes sort db labels labels' (x ∷ xs) s empty found same =
    let one : hash labels ≡ hash labels' = hash-flat labels labels' same in
    let there : lookup ℕ_discrete (hash labels') db.series ≡ some s = rw (← one) found in
    let mine : find_or_new db labels' ≡ s = rw (find_or_new, there) refl in
    rw (write_sorted, mine, append_all-each s (sort (x ∷ xs)))
      (stored-Writes labels s (sort (x ∷ xs)) db one there)
