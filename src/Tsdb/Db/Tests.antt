-- ===== src/Tsdb/Db/Tests.antt =====
-- The database on concrete series.
use golang_journey.Prelude.{◌≡◌, refl, [], ◌∷◌, map, All, Selects, ℕ_discrete}
use golang_journey.Prelude.Map.{lookup}
use golang_journey.Prelude.Text.{bytes}
use golang_journey.Tsdb.Chunk.{new_chunk}
use golang_journey.Tsdb.Db.{
  Labels, Sample, Series, Db, hash, hash_labels, hash_text, samples, query, write, show, show_rest,
}
use golang_journey.Tsdb.Db.Queries.{Has, query-Selects}
use golang_journey.Tsdb.Db.Keys.{Writes, write-Writes}

-- One label whose value has a comma, and two labels: the text that is hashed is the same.
abbrev one_label : Labels
one_label = record { name = bytes "a"; value = bytes "b,c=d" } ∷ []

abbrev two_labels : Labels
two_labels =
    record { name = bytes "a"; value = bytes "b" }
    ∷ record { name = bytes "c"; value = bytes "d" }
    ∷ []

abbrev kept : Series
kept = record { labels = one_label; head = new_chunk }

abbrev one_series : Db
one_series = record { series = (hash one_label, kept) ∷ [] }

abbrev sample : Sample
sample = record { ts = 1000; val = 7 }

write-Writes_example :
    Writes one_label kept
      (sample ∷ [])
      one_series
      (write (λ xs. xs) one_series two_labels (sample ∷ []))
unfolding lookup ℕ_discrete hash hash_labels hash_text
write-Writes_example =
    write-Writes (λ xs. xs) one_series one_label two_labels (sample ∷ []) kept refl refl refl

query-Selects_example :
    Selects
      (λ s. All (Has s.labels) two_labels)
      (map (λ e. e.1) one_series.series)
      (query one_series two_labels 0 9)
    × All (λ s. samples 3 s 0 9 ≡ []) (query one_series two_labels 0 9)
query-Selects_example = query-Selects one_series two_labels 0 9 3

shown : show two_labels ≡ bytes "{a=b,c=d}"
unfolding show show_rest
shown = refl
