-- ===== src/SchemaRegistry/Api/Safety.antt =====
-- What every request does to a valid registry.
use golang_journey.Prelude.{
  ℕ, ◌+◌, ◌<◌, ◌≢◌, Bool, ◌&&◌, refl, List, [], ◌∷◌, some, none, arith, inl, inr, Option-cases,
  subst, Sum-cases, if-both, Outcome, ok, err, panic,
}
use golang_journey.Prelude.Int64.{half}
use golang_journey.Prelude.Text.{same_text, trim_prefix, Text, bytes}
use golang_journey.Cron.Syntax.{atoi, atoi-lt}
use golang_journey.SchemaRegistry.Schema.{RegistryError, json_schema}
use golang_journey.SchemaRegistry.Registry.{
  Registry, register, get_by_id, get_latest, get_version, versions, subjects, set_compat_level,
  compat_level, delete,
}
use golang_journey.SchemaRegistry.Registry.Delete.{delete-IsValid}
use golang_journey.SchemaRegistry.Registry.Invariant.{IsValid}
use golang_journey.SchemaRegistry.Registry.Preserve.{register-IsValid, set_compat_level-IsValid}
use golang_journey.SchemaRegistry.Registry.Reads.{reads-ne-panic}
use golang_journey.SchemaRegistry.Registry.Writes.{IsSettled, register-IsSettled}
use golang_journey.SchemaRegistry.Registry.Plain.{
  get_by_id-ne-panic, versions-ne-panic, compat_level-ne-panic, set_compat_level-ne-panic,
  delete-ne-panic,
}
use golang_journey.SchemaRegistry.Api.{
  Request, Response, Services, panicked, http_error, redirected, respond, subject_route,
  register_route, versions_route, version_route, handle_parts, handle, id_route, check_route,
  config_route, set_config_route, serve, first_part, invalid_version, schema_details, subject_names,
  is_get, under,
}

-- A handler that has not panicked.
abbrev pub IsAnswered : {E : Type 0} → Response E → Type 0
IsAnswered panicked = ⊥
IsAnswered response = Unit

respond-IsAnswered :
    {E A : Type 0} (code : ℕ) (found : A → Response E) (o : Outcome (RegistryError E) A)
    → o ≢ panic
    → ((a : A) → IsAnswered (found a))
    → IsAnswered (respond code found o)
unfolding respond
respond-IsAnswered code found (ok a) settled plain = plain a
respond-IsAnswered code found (err e) settled plain = tt
respond-IsAnswered code found panic settled plain = absurd (settled refl)

module _ {E : Type 0} where
  -- A registry that is valid still, and an answer.
  pub record IsServed (served : Registry E × Response E) : Type 0 where
    pub valid : IsValid served.0
    pub answered : IsAnswered served.1

  module _ (s : Services E) (r : Registry E) (v : IsValid r) where
    kept : {response : Response E} → IsAnswered response → IsServed (r, response)
    kept p = record { valid = v; answered = p }

    subject_route-IsServed : (req : Request) (k : Text) → IsServed (subject_route s r req k)
    unfolding subject_route
    subject_route-IsServed req k =
        if-both IsServed _
          (record {
            valid = delete-IsValid r k v;
            answered = respond-IsAnswered 404 _ (delete r k).1 (delete-ne-panic r k) (λ u. tt);
          })
          (kept tt)

    register_route-IsServed :
        (req : Request) (k : Text) (now : ℕ)
        → r.next_id + 1 < half
        → IsServed (register_route s r req k now)
    unfolding register_route
    register_route-IsServed req k now room =
        elim (Sum-cases (s.decode_register json_schema req.body)) [
          | inl (x, e) ↦ rw (register_route, e) (kept tt)
          | inr ((content, format), q) ↦
              rw (register_route, q)
                (record {
                  valid = register-IsValid r v s.unmarshal k format content now room;
                  answered =
                      respond-IsAnswered 409 _ (register s.unmarshal r k format content now).1
                        (λ e.
                          subst
                            (λ o.
                              IsSettled r v room k format content now
                                ((register s.unmarshal r k format content now).0, o))
                            e (register-IsSettled r v room k format content now s.unmarshal))
                        (λ u. tt);
                })
        ]

    versions_route-IsServed :
        (req : Request) (k : Text) (now : ℕ)
        → r.next_id + 1 < half
        → IsServed (versions_route s r req k now)
    unfolding versions_route
    versions_route-IsServed req k now room =
        if-both IsServed _
          (kept (respond-IsAnswered 404 _ (versions r k) (versions-ne-panic r k) (λ u. tt)))
          (if-both IsServed _ (register_route-IsServed req k now room) (kept tt))

    version_route-IsServed : (k version : Text) → IsServed (version_route s r k version)
    unfolding version_route
    version_route-IsServed k version =
        if-both IsServed _
          (kept (
            respond-IsAnswered 404 _ (get_latest r k) (reads-ne-panic r v k 0 (omega arith)).0
              (λ u. tt)))
          (kept numbered)
      where
        numbered : IsAnswered (elim (atoi version) [
          | none ↦ http_error 400 invalid_version
          | some n ↦ respond 404 schema_details (get_version r k n)
        ])
        numbered = elim (Option-cases (atoi version)) [
          | inl e ↦ rw e tt
          | inr (n, e) ↦ rw e (
              respond-IsAnswered 404 schema_details (get_version r k n)
                (reads-ne-panic r v k n (atoi-lt version n e)).1 (λ u. tt))
        ]

    handle_parts-IsServed :
        (req : Request) (now : ℕ) (parts : List Text)
        → r.next_id + 1 < half
        → IsServed (handle_parts s r req now parts)
    unfolding handle_parts
    handle_parts-IsServed req now [] room = (kept tt)
    handle_parts-IsServed req now (k ∷ []) room = subject_route-IsServed req k
    handle_parts-IsServed req now (k ∷ kind ∷ []) room =
        if-both IsServed _ (versions_route-IsServed req k now room) (kept tt)
    handle_parts-IsServed req now (k ∷ kind ∷ version ∷ more) room =
        if-both IsServed _ (version_route-IsServed k version) (kept tt)

    handle-IsServed :
        (req : Request) (now : ℕ) → r.next_id + 1 < half → IsServed (handle s r req now)
    unfolding handle
    handle-IsServed req now room = handle_parts-IsServed req now _ room

    id_route-IsAnswered : (req : Request) → IsAnswered (id_route s r req)
    unfolding id_route
    id_route-IsAnswered req =
        elim (Option-cases (atoi (trim_prefix (bytes "/schemas/ids/") req.path))) [
          | inl e ↦ rw (id_route, e) tt
          | inr (id, e) ↦
              rw (id_route, e)
                (respond-IsAnswered 404 _ (get_by_id r id) (get_by_id-ne-panic r id) (λ u. tt))
        ]

    check_route-IsAnswered : (req : Request) → IsAnswered (check_route s r req)
    unfolding check_route
    check_route-IsAnswered req = elim (Sum-cases (s.decode_check req.body)) [
      | inl (x, e) ↦ rw (check_route, e) tt
      | inr ((content, format), q) ↦
          let k = first_part (trim_prefix (bytes "/compatibility/subjects/") req.path) in
          rw (check_route, q)
            (respond-IsAnswered 404 _ (get_latest r k) (reads-ne-panic r v k 0 (omega arith)).0
              (λ latest. ground arith))
    ]

    config_route-IsAnswered : (req : Request) → IsAnswered (config_route s r req)
    unfolding config_route
    config_route-IsAnswered req =
        respond-IsAnswered 404 _ (compat_level r _) (compat_level-ne-panic r _) (λ u. tt)

    set_config_route-IsServed : (req : Request) → IsServed (set_config_route s r req)
    unfolding set_config_route
    set_config_route-IsServed req = elim (Sum-cases (s.decode_config req.body)) [
      | inl (x, e) ↦ rw (set_config_route, e) (kept tt)
      | inr (level, q) ↦
          let k = trim_prefix (bytes "/config/") req.path in
          rw (set_config_route, q)
            (record {
              valid = set_compat_level-IsValid r v k level;
              answered =
                  respond-IsAnswered 404 _ (set_compat_level r k level).1
                    (set_compat_level-ne-panic r k level) (λ u. tt);
            })
    ]

    routed-IsServed :
        (req : Request) (now : ℕ) → r.next_id + 1 < half → IsServed (serve s r req now)
    unfolding serve
    routed-IsServed req now room =
        let is : Text → Bool = same_text req.method in
        let gets : Bool = is_get req in
        if-both IsServed (s.redirects req.method req.path) (kept {response = redirected} tt) (
          if-both IsServed (gets && same_text req.path (bytes "/subjects"))
            (kept {response = subject_names (subjects r)} tt)
            (if-both IsServed (gets && under (bytes "/subjects/") req)
              (handle-IsServed req now room)
              (if-both IsServed (gets && under (bytes "/schemas/ids/") req)
                (kept (id_route-IsAnswered req))
                (if-both IsServed
                  (is (bytes "POST") && under (bytes "/compatibility/subjects/") req)
                  (kept (check_route-IsAnswered req))
                  (if-both IsServed (gets && under (bytes "/config/") req)
                    (kept (config_route-IsAnswered req))
                    (if-both IsServed (is (bytes "PUT") && under (bytes "/config/") req)
                      (set_config_route-IsServed req) (kept {response = http_error _ _} tt)))))))

    -- On a valid registry with a further id left, handle and the handler of the REST API
    -- around it answer any request without a panic and leave a valid registry, for any
    -- decoders, any checker and any redirects.
    pub serve-IsServed :
        (req : Request) (now : ℕ)
        → r.next_id + 1 < half
        → IsServed (handle s r req now) × IsServed (serve s r req now)
    serve-IsServed req now room = (handle-IsServed req now room, routed-IsServed req now room)
