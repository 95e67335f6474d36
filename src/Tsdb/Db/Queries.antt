-- ===== src/Tsdb/Db/Queries.antt =====
-- What `Query` returns, and what can be read of it.
use golang_journey.Prelude.{
  ℕ, zero, suc, ◌≡◌, ◌↔◌, ◌⊎◌, inl, inr, true, refl, List, [], ◌∷◌, All, arith, map, Selects, done,
  take_one, skip_one, Bool-cases,
}
use golang_journey.Prelude.Text.{Text, same_text}
use golang_journey.Tsdb.Chunk.{Iterator, next_sample}
use golang_journey.Tsdb.Db.{
  Label, Labels, Series, Db, collect, samples, has_label, matches_selector, select, query,
}

-- A pair of the labels has the name and the value.
abbrev pub Has : Labels → Label → Type 0
Has [] sel = ⊥
Has (l ∷ ls) sel = ((l.name ≡ sel.name) × (l.value ≡ sel.value)) ⊎ Has ls sel

same_text_iff : (s t : Text) → (same_text s t ≡ true) ↔ (s ≡ t)
same_text_iff s t = ground arith

has_label-Has : (sel : Label) (labels : Labels) → (has_label sel labels ≡ true) ↔ Has labels sel
unfolding has_label
has_label-Has sel [] = (λ h. cc h, λ h. absurd h)
has_label-Has sel (l ∷ ls) =
    ground
      (arith, has_label-Has sel ls, same_text_iff l.name sel.name, same_text_iff l.value sel.value)

matches_selector-All :
    (labels selector : Labels)
    → (matches_selector labels selector ≡ true) ↔ All (Has labels) selector
unfolding matches_selector
matches_selector-All labels [] = (λ h. tt, λ h. refl)
matches_selector-All labels (sel ∷ sels) =
    ground (arith, has_label-Has sel labels, matches_selector-All labels sels)

select-Selects :
    (selector : Labels) (entries : List (ℕ × Series))
    → Selects (λ s. All (Has s.labels) selector) (map (λ e. e.1) entries) (select selector entries)
unfolding select
select-Selects selector [] = done
select-Selects selector ((h, s) ∷ entries) =
    elim (Bool-cases (matches_selector s.labels selector)) [
      | inl e ↦ rw e (
          take_one ((matches_selector-All s.labels selector).0 e) (select-Selects selector entries))
      | inr e ↦ rw e (
          skip_one (λ h. ground (arith, e, (matches_selector-All s.labels selector).1 h))
            (select-Selects selector entries))
    ]

collect-nil : (rounds min_ts max_ts : ℕ) (it : Iterator) → collect rounds min_ts max_ts it ≡ []
unfolding collect next_sample
collect-nil zero min_ts max_ts it = refl
collect-nil (suc n) min_ts max_ts it = ground arith

-- Query returns exactly the series whose labels have every pair of the selector, in the order of
-- the map and whatever the range of times is, and Samples of each of them is empty, for any
-- number of rounds of its loop.
pub query-Selects :
    (db : Db) (selector : Labels) (min_ts max_ts : ℕ) (rounds : ℕ)
    → Selects
        (λ s. All (Has s.labels) selector)
        (map (λ e. e.1) db.series)
        (query db selector min_ts max_ts)
      × All (λ s. samples rounds s min_ts max_ts ≡ []) (query db selector min_ts max_ts)
unfolding query samples
query-Selects db selector min_ts max_ts rounds =
    (select-Selects selector db.series, all_nil (select selector db.series))
  where
    all_nil : (ss : List Series) → All (λ s. samples rounds s min_ts max_ts ≡ []) ss
    all_nil [] = tt
    all_nil (s ∷ ss) = (collect-nil rounds min_ts max_ts _, all_nil ss)
