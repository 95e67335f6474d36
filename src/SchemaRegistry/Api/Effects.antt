-- ===== src/SchemaRegistry/Api/Effects.antt =====
-- Which requests change the registry.
use golang_journey.Prelude.{
  ℕ, ◌≡◌, Bool, ◌&&◌, true, false, refl, List, [], ◌∷◌, arith, inl, inr, Sum-cases, if-both,
  if-when,
}
use golang_journey.Prelude.Text.{same_text, trim_prefix, Text, Text-discrete, bytes, starts_with}
use golang_journey.SchemaRegistry.Schema.{CompatLevel}
use golang_journey.SchemaRegistry.Registry.{Registry, set_compat_level}
use golang_journey.SchemaRegistry.Api.{
  Request, Response, Services, subject_route, versions_route, version_route, handle_parts, handle,
  set_config_route, serve, is_get, under,
}

pub same_text-true : (a b : Text) → same_text a b ≡ true → a ≡ b
same_text-true a b h = ground arith

is_get-ne :
    (req : Request)
    → is_get req ≡ true
    → (same_text req.method (bytes "POST") ≡ false)
      × (same_text req.method (bytes "DELETE") ≡ false)
unfolding Text-discrete
is_get-ne req h = elim (Text-discrete req.method (bytes "GET")) [
  | yes e ↦ rw e (refl, refl)
  | no ne ↦
      let e : req.method ≡ bytes "HEAD" =
        same_text-true req.method (bytes "HEAD") (ground (arith, h, ne)) in
      rw e (refl, refl)
]

module _ {E : Type 0} (s : Services E) (r : Registry E) (req : Request) where
  module _ (gets : is_get req ≡ true) where
    handle_parts-get : (now : ℕ) (parts : List Text) → (handle_parts s r req now parts).0 ≡ r
    unfolding handle_parts subject_route versions_route version_route
    handle_parts-get now [] = refl
    handle_parts-get now (k ∷ []) = ground (arith, is_get-ne req gets)
    handle_parts-get now (k ∷ kind ∷ []) = ground (arith, is_get-ne req gets)
    handle_parts-get now (k ∷ kind ∷ version ∷ more) = ground (arith)

    handle-get : (now : ℕ) → (handle s r req now).0 ≡ r
    unfolding handle
    handle-get now = handle_parts-get now _

  -- The registry of before, or that of a call of `SetCompatLevel`, for a request `PUT /config/`.
  pub data Served (served : Registry E × Response E) : Type 0 where
    unchanged : served.0 ≡ r → Served served
    configured :
        (level : CompatLevel)
        → req.method ≡ bytes "PUT"
        → starts_with (bytes "/config/") req.path ≡ true
        → served.0 ≡ (set_compat_level r (trim_prefix (bytes "/config/") req.path) level).0
        → Served served

  set_config_route-Served :
      same_text req.method (bytes "PUT") && under (bytes "/config/") req ≡ true
      → Served (set_config_route s r req)
  unfolding set_config_route
  set_config_route-Served h = elim (Sum-cases (s.decode_config req.body)) [
    | inl (x, e) ↦ unchanged (rw (set_config_route, e) refl)
    | inr (level, e) ↦
        configured level (same_text-true _ _ (ground (arith, h))) (ground (arith, h))
          (rw (set_config_route, e) refl)
  ]

  -- Any request that the handler of the REST API answers leaves the registry as it was, or is a
  -- PUT whose path starts with /config/ and leaves it as a `SetCompatLevel` of the rest of the
  -- path does; so no request registers a schema or deletes a subject.
  pub serve-Served : (now : ℕ) → Served (serve s r req now)
  unfolding serve
  serve-Served now =
      let is : Text → Bool = same_text req.method in
      let gets : Bool = is_get req in
      if-both Served (s.redirects req.method req.path) (unchanged refl) (
        if-both Served (gets && same_text req.path (bytes "/subjects")) (unchanged refl) (
          if-when Served (gets && under (bytes "/subjects/") req)
            (λ h. unchanged (handle-get (ground (arith, h)) now))
            (if-both Served (gets && under (bytes "/schemas/ids/") req) (unchanged refl) (
              if-both Served (is (bytes "POST") && under (bytes "/compatibility/subjects/") req)
                (unchanged refl)
                (if-both Served (gets && under (bytes "/config/") req) (unchanged refl) (
                  if-when Served (is (bytes "PUT") && under (bytes "/config/") req)
                    set_config_route-Served (unchanged refl)))))))
