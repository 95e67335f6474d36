-- ===== src/SchemaRegistry/Api.antt =====
-- The REST handlers of projects/10-schema-registry/api/v1/handler.go: a request is answered in one
-- step from a registry to a registry and a response. Writing a JSON body is left out; a response
-- keeps what the body holds. The decoders of the request bodies are parameters, and so is what the
-- multiplexer of net/http redirects. The path of a request is taken to have no escaped character, for
-- the multiplexer matches the path before the escapes are decoded.
pub mod Safety
pub mod Effects
mod Tests
use golang_journey.Prelude.{
  ℕ, Bool, true, false, ◌||◌, ◌&&◌, ◌⊎◌, inl, inr, List, [], ◌∷◌, Option, none, some, ite, length,
  drop, if◌then◌else◌, Outcome, ok, err, panic,
}
use golang_journey.Prelude.Text.{Text, Text-discrete, bytes, starts_with, trim_prefix, same_text}
use golang_journey.Cron.Syntax.{atoi, cut}
use golang_journey.SchemaRegistry.Schema.{
  Format, json_schema, CompatLevel, compat_none, Schema, RegistryError,
}
use golang_journey.SchemaRegistry.Registry.{
  Checker, Registry, register, get_by_id, get_latest, get_version, subjects, versions,
  set_compat_level, compat_level, delete,
}

pub record Request : Type 0 where
  pub method : Text
  pub path : Text
  pub body : Text

pub data Message (E : Type 0) : Type 0 where
  bad_path invalid_id invalid_version method_not_allowed not_found : Message E
  bad_body : Text → Message E
  registry_error : RegistryError E → Message E

pub data Response (E : Type 0) : Type 0 where
  subject_names : List Text → Response E
  version_list : List ℕ → Response E
  schema_text : Text → Response E
  schema_details : Schema → Response E
  registered_id : ℕ → Response E
  compatibility : CompatLevel → Response E
  is_compatible : Bool → Response E
  deleted : Response E
  http_error : ℕ → Message E → Response E
  redirected : Response E
  panicked : Response E

-- What is not in the source: the decoders, each an error's text or the fields, the decoder of the
-- registry's own contents, the compatibility checker, and the redirects of the multiplexer. The
-- first decoder is given the format that a body may leave out.
pub record Services (E : Type 0) : Type 0 where
  pub decode_register : Format → Text → Text ⊎ (Text × Format)
  pub decode_check : Text → Text ⊎ (Text × Format)
  pub decode_config : Text → Text ⊎ CompatLevel
  pub unmarshal : Text → Option Text
  pub checker : Checker E
  pub redirects : Text → Text → Bool

-- `strings.SplitN(path, "/", 3)`
pub split_three : Text → List Text
split_three path = elim (cut b'/' path) [
  | none ↦ path ∷ []
  | some (a, rest) ↦ elim (cut b'/' rest) [ none ↦ a ∷ rest ∷ [] | some (b, c) ↦ a ∷ b ∷ c ∷ [] ]
]

-- `strings.Split(path, "/")[0]`
pub first_part : Text → Text
first_part path = elim (cut b'/' path) [ none ↦ path | some (a, rest) ↦ a ]

-- The pattern `GET` of the multiplexer takes the method HEAD too.
abbrev pub is_get : Request → Bool
is_get req = same_text req.method (bytes "GET") || same_text req.method (bytes "HEAD")

abbrev pub under : Text → Request → Bool
under prefix req = starts_with prefix req.path

module _ {E : Type 0} where
  -- The answer to a call of the registry: an error has the given status.
  pub respond : {A : Type 0} → ℕ → (A → Response E) → Outcome (RegistryError E) A → Response E
  respond code found (ok a) = found a
  respond code found (err e) = http_error code (registry_error e)
  respond code found panic = panicked

  module _ (s : Services E) where
    -- `DELETE /subjects/{subject}`
    pub subject_route : Registry E → Request → Text → Registry E × Response E
    subject_route reg req subject =
        let result = delete reg subject in
        if same_text req.method (bytes "DELETE")
        then (result.0, respond 404 (λ u. deleted) result.1)
        else (reg, http_error 405 method_not_allowed)

    -- `POST /subjects/{subject}/versions`
    pub register_route : Registry E → Request → Text → ℕ → Registry E × Response E
    register_route reg req subject now = elim (s.decode_register json_schema req.body) [
      | inl e ↦ (reg, http_error 400 (bad_body e))
      | inr (content, format) ↦
          let result = register s.unmarshal reg subject format content now in
          (result.0, respond 409 registered_id result.1)
    ]

    -- `/subjects/{subject}/versions`
    pub versions_route : Registry E → Request → Text → ℕ → Registry E × Response E
    versions_route reg req subject now =
        if same_text req.method (bytes "GET")
        then (reg, respond 404 version_list (versions reg subject))
        else if same_text req.method (bytes "POST")
        then register_route reg req subject now
        else (reg, http_error 405 method_not_allowed)

    -- `GET /subjects/{subject}/versions/{version}`
    pub version_route : Registry E → Text → Text → Registry E × Response E
    version_route reg subject version =
        let numbered : Response E = elim (atoi version) [
          | none ↦ http_error 400 invalid_version
          | some v ↦ respond 404 schema_details (get_version reg subject v)
        ] in
        if same_text version (bytes "latest")
        then (reg, respond 404 schema_details (get_latest reg subject))
        else (reg, numbered)

    pub handle_parts : Registry E → Request → ℕ → List Text → Registry E × Response E
    handle_parts reg req now [] = (reg, http_error 400 bad_path)
    handle_parts reg req now (subject ∷ []) = subject_route reg req subject
    handle_parts reg req now (subject ∷ kind ∷ []) =
        if same_text kind (bytes "versions")
        then versions_route reg req subject now
        else (reg, http_error 404 not_found)
    handle_parts reg req now (subject ∷ kind ∷ version ∷ more) =
        if same_text kind (bytes "versions")
        then version_route reg subject version
        else (reg, http_error 404 not_found)

    pub handle : Registry E → Request → ℕ → Registry E × Response E
    handle reg req now =
        handle_parts reg req now (split_three (trim_prefix (bytes "/subjects/") req.path))

    -- `GET /schemas/ids/{id}`
    pub id_route : Registry E → Request → Response E
    id_route reg req = elim (atoi (trim_prefix (bytes "/schemas/ids/") req.path)) [
      | none ↦ http_error 400 invalid_id
      | some id ↦ respond 404 (λ schema. schema_text schema.content) (get_by_id reg id)
    ]

    -- `level, _ := reg.CompatLevel(subject)`
    pub level_or_none : Outcome (RegistryError E) CompatLevel → CompatLevel
    level_or_none (ok level) = level
    level_or_none (err e) = CompatLevel.other []
    level_or_none panic = CompatLevel.other []

    -- `POST /compatibility/subjects/{subject}/versions/latest`
    pub check_route : Registry E → Request → Response E
    check_route reg req =
        let subject = first_part (trim_prefix (bytes "/compatibility/subjects/") req.path) in
        elim (s.decode_check req.body) [
          | inl e ↦ http_error 400 (bad_body e)
          | inr (content, format) ↦
              let level = level_or_none (compat_level reg subject) in
              respond 404
                (λ latest. elim (s.checker latest.format latest.content content level) [
                  | none ↦ is_compatible true
                  | some e ↦ is_compatible false
                ])
                (get_latest reg subject)
        ]

    -- `GET /config/{subject}`
    pub config_route : Registry E → Request → Response E
    config_route reg req =
        respond 404 compatibility (compat_level reg (trim_prefix (bytes "/config/") req.path))

    -- `PUT /config/{subject}`
    pub set_config_route : Registry E → Request → Registry E × Response E
    set_config_route reg req = elim (s.decode_config req.body) [
      | inl e ↦ (reg, http_error 400 (bad_body e))
      | inr level ↦
          let result = set_compat_level reg (trim_prefix (bytes "/config/") req.path) level in
          (result.0, respond 404 (λ u. compatibility level) result.1)
    ]

    -- `Handler`: a path with a pattern of another method alone is answered by 405, any other by 404.
    pub serve : Registry E → Request → ℕ → Registry E × Response E
    serve reg req now =
        let known =
          same_text req.path (bytes "/subjects")
          || under (bytes "/subjects/") req
          || under (bytes "/schemas/ids/") req
          || under (bytes "/compatibility/subjects/") req
          || under (bytes "/config/") req in
        if s.redirects req.method req.path
        then (reg, redirected)
        else if is_get req && same_text req.path (bytes "/subjects")
        then (reg, subject_names (subjects reg))
        else if is_get req && under (bytes "/subjects/") req
        then handle reg req now
        else if is_get req && under (bytes "/schemas/ids/") req
        then (reg, id_route reg req)
        else if same_text req.method (bytes "POST") && under (bytes "/compatibility/subjects/") req
        then (reg, check_route reg req)
        else if is_get req && under (bytes "/config/") req
        then (reg, config_route reg req)
        else if same_text req.method (bytes "PUT") && under (bytes "/config/") req
        then set_config_route reg req
        else (
          reg,
          http_error (if known then 405 else 404) (if known then method_not_allowed else not_found),
        )
