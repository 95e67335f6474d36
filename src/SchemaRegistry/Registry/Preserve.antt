-- ===== src/SchemaRegistry/Registry/Preserve.antt =====
-- Every method keeps the invariant, so it holds of every registry that calls can reach.
use golang_journey.Prelude.{
  ℕ, suc, ◌+◌, ◌-◌, ◌<◌, ◌≡◌, inl, inr, sym, subst, List, [], ◌∷◌, Option, some, length, get_elem?,
  arith, ite, get_elem?-length, Option-cases,
}
use golang_journey.Prelude.Int64.{half}
use golang_journey.Prelude.Map.{lookup, insert, lookup-insert}
use golang_journey.Prelude.Text.{Text, Text-discrete}
use golang_journey.SchemaRegistry.Schema.{Format, Schema, CompatLevel}
use golang_journey.SchemaRegistry.Registry.{
  SubjectEntry, Registry, find_or_create, add_version, set_compat_level, register_entry, register,
  latest,
}
use golang_journey.SchemaRegistry.Registry.Invariant.{
  InPlace, Filed, IsValid, Found, find_or_create-Found,
}
use golang_journey.SchemaRegistry.Registry.Add.{add_version-IsValid}

-- The latest version is the one with the last number.
pub latest-some :
    (vs : List Schema) {s : Schema}
    → latest vs ≡ some s
    → (0 < length vs) × (get_elem? vs (length vs - 1) ≡ some s)
unfolding latest
latest-some [] h = cc
latest-some (x ∷ xs) h =
    let e : suc (length xs) - 1 ≡ length xs = omega arith in (omega arith, rw e h)

pub latest_total : (vs : List Schema) → 0 < length vs → (s : Schema) × (latest vs ≡ some s)
unfolding latest
latest_total [] h = absurd (omega arith)
latest_total (x ∷ xs) h = get_elem?-length x xs

module _ {E : Type 0} (r : Registry E) (v : IsValid r) where
  pub register_entry-IsValid :
      (room : r.next_id + 1 < half) (k : Text) (r' : Registry E) (entry : SubjectEntry)
      → Found r k r' entry
      → (format : Format) (content : Text) (now : ℕ)
      → IsValid (register_entry r' entry k format content now).0
  unfolding register_entry
  register_entry-IsValid room k r' entry f format content now =
      elim (Option-cases (latest entry.versions)) [
        | inl e ↦ rw (e, register_entry) added
        | inr (last, e) ↦
            let valid : IsValid r' = subst IsValid (sym (f.unchanged (latest-some _ e).0)) v in
            ground (arith, added, valid, e)
      ]
    where
      added : IsValid (add_version r' entry k format content now).0
      added = add_version-IsValid r v room k r' entry f format content now

  -- `Register` keeps the invariant, whatever it returns.
  pub register-IsValid :
      (unmarshal : Text → Option Text) (k : Text) (format : Format) (content : Text) (now : ℕ)
      → r.next_id + 1 < half
      → IsValid (register unmarshal r k format content now).0
  unfolding register
  register-IsValid unmarshal k format content now room = ground (
    arith,
    register_entry-IsValid room k (find_or_create r k).0 (find_or_create r k).1
        (find_or_create-Found r k) format content now,
  )

  set_compat_level-subject :
      (k : Text) (level : CompatLevel) (entry : SubjectEntry)
      → lookup Text-discrete k r.subjects ≡ some entry
      → (j : Text)
      → lookup Text-discrete j (set_compat_level r k level).0.subjects
        ≡ ite
            (Text-discrete k j)
            (some (record entry { compat = level }))
            (lookup Text-discrete j r.subjects)
  unfolding set_compat_level
  set_compat_level-subject k level entry e j =
      ground
        (arith, e, lookup-insert Text-discrete k j (record entry { compat = level }) r.subjects)

  relisted :
      (k : Text) (level : CompatLevel) (entry : SubjectEntry)
      → lookup Text-discrete k r.subjects ≡ some entry
      → {id : ℕ} (s : Schema) → Filed r.subjects r.next_id id s
      → Filed (insert Text-discrete k (record entry { compat = level }) r.subjects) r.next_id id s
  relisted k level entry e s p = elim (Text-discrete k s.subject) [
    | yes same ↦ record {
      same_id = p.same_id;
      below = p.below;
      entry = record entry { compat = level };
      listed = ground (arith, inserted);
      at_version = ground (arith, p.listed, p.at_version);
    }
    | no ne ↦ record {
      same_id = p.same_id;
      below = p.below;
      entry = p.entry;
      listed = ground (arith, inserted, p.listed);
      at_version = p.at_version;
    }
  ]
    where
      inserted :
          lookup Text-discrete s.subject
            (insert Text-discrete k (record entry { compat = level }) r.subjects)
          ≡ ite
              (Text-discrete k s.subject)
              (some (record entry { compat = level }))
              (lookup Text-discrete s.subject r.subjects)
      inserted =
          lookup-insert Text-discrete k s.subject (record entry { compat = level }) r.subjects

  -- `SetCompatLevel` keeps the invariant.
  pub set_compat_level-IsValid :
      (k : Text) (level : CompatLevel) → IsValid (set_compat_level r k level).0
  unfolding set_compat_level
  set_compat_level-IsValid k level = elim (Option-cases (lookup Text-discrete k r.subjects)) [
    | inl e ↦ rw (e, set_compat_level) v
    | inr (entry, e) ↦
        let subject = set_compat_level-subject k level entry e in
        rw (e, set_compat_level)
          (record {
            nonempty = λ j x h. elim (Text-discrete k j) [
              | yes same ↦ ground (arith, subject j, v.nonempty k entry e)
              | no ne ↦ v.nonempty j x (ground (arith, subject j))
            ];
            within = λ j x h. elim (Text-discrete k j) [
              | yes same ↦ ground (arith, subject j, v.within k entry e)
              | no ne ↦ v.within j x (ground (arith, subject j))
            ];
            numbered = λ j x i s h g. elim (Text-discrete k j) [
              | yes same ↦
                  subst (λ q. InPlace r.by_id q i s) same
                    (v.numbered k entry i s e (ground (arith, subject j)))
              | no ne ↦ v.numbered j x i s (ground (arith, subject j)) g
            ];
            stored = λ id s h. relisted k level entry e s (v.stored id s h);
            positive = v.positive;
            fits = v.fits;
          })
  ]
