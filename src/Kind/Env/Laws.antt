-- ===== src/Kind/Env/Laws.antt =====
-- Which variables the Nacos container gets, by name, as the tests of auth_test.go look them up.
use nacos_k8s.Base.{
  String, ◌≡◌, refl, ◌∙◌, ap, Bool, false, Option, none, some, List, [], ◌∷◌, ◌++◌, ◌==◌, arith,
  if◌then◌else◌, Bool-cases, inl, inr,
}
use mathlib.Core.List.{append-nil}
use nacos_k8s.Go.Format.{format_bool}
use nacos_k8s.Errors.{Outcome, done, panic}
use nacos_k8s.Kube.{EnvVar}
use nacos_k8s.Api.{NacosSpec, Certification, Database}
use nacos_k8s.Environment.{and_then}
use nacos_k8s.Kind.Env.{function_env, certification_env, database_env, mode_env, build_env}

-- the values of the variables with the name, in their order
abbrev pub values_of : String → List EnvVar → List String
values_of name [] = []
values_of name (v ∷ vs) =
    let rest = values_of name vs in if v.name == name then v.value ∷ rest else rest

-- a pointer as a list, and a string that may be empty
abbrev pub flag_values : Option Bool → List String
flag_values none = []
flag_values (some b) = format_bool b ∷ []

abbrev pub text_values : String → List String
text_values s = if s == "" then [] else s ∷ []

pub values_of-append :
    (name : String) (a b : List EnvVar)
    → values_of name (a ++ b) ≡ values_of name a ++ values_of name b
values_of-append name [] b = refl
values_of-append name (v ∷ a) b = ground (arith, values_of-append name a b)

-- a name that only the certification writes, apart from the user
abbrev IsForeign : String → Type 0
IsForeign name =
    (("FUNCTION_MODE" == name) ≡ false)
    × (("PREFER_HOST_MODE" == name) ≡ false)
    × (("EMBEDDED_STORAGE" == name) ≡ false)
    × (("SPRING_DATASOURCE_PLATFORM" == name) ≡ false)
    × (("MYSQL_SERVICE_HOST" == name) ≡ false)
    × (("MYSQL_SERVICE_PORT" == name) ≡ false)
    × (("MYSQL_SERVICE_DB_NAME" == name) ≡ false)
    × (("MYSQL_SERVICE_USER" == name) ≡ false)
    × (("MYSQL_SERVICE_PASSWORD" == name) ≡ false)
    × (("MODE" == name) ≡ false)
    × (("NACOS_REPLICAS" == name) ≡ false)

values_of-one :
    (name : String) (env : List EnvVar) (v : EnvVar)
    → (v.name == name) ≡ false
    → values_of name (env ++ v ∷ []) ≡ values_of name env
values_of-one name [] v h = rw h
values_of-one name (w ∷ env) v h = ground (arith, values_of-one name env v h)

module _ (name : String) (h : IsForeign name) where
  values_of-function_env :
      (spec : NacosSpec) → values_of name (function_env spec) ≡ values_of name spec.env
  unfolding function_env
  values_of-function_env spec = elim (Bool-cases (spec.function_mode == "naming")) [
    | inl p ↦ rw p (values_of-one name spec.env _ h.0)
    | inr p ↦ elim (Bool-cases (spec.function_mode == "config")) [
      | inl q ↦ rw (p, q) (values_of-one name spec.env _ h.0)
      | inr q ↦ rw (p, q) (values_of-one name spec.env _ h.1)
    ]
  ]

  values_of-database_env : (d : Database) → values_of name (database_env d) ≡ []
  unfolding database_env
  values_of-database_env d = elim (Bool-cases (d.type_database == "embedded")) [
    | inl p ↦ rw p (rw h.2)
    | inr p ↦ elim (Bool-cases (d.type_database == "mysql")) [
      | inl q ↦ rw (p, q) (rw (h.3, h.4, h.5, h.6, h.7, h.8))
      | inr q ↦ rw (p, q)
    ]
  ]

  values_of-mode_env :
      (spec : NacosSpec) (mode : List EnvVar) → mode_env spec ≡ done mode → values_of name mode ≡ []
  unfolding mode_env
  values_of-mode_env spec mode e = ground (arith, h.9, h.10)

  values_of-build_env :
      (spec : NacosSpec) (env : List EnvVar)
      → build_env spec ≡ done env
      → values_of name env
        ≡ values_of name spec.env ++ values_of name (certification_env spec.certification)
  unfolding build_env
  values_of-build_env spec env e = go (mode_env spec) refl e
    where
      go :
          (m : Outcome (List EnvVar))
          → mode_env spec ≡ m
          → and_then m (λ mode. done (
              function_env spec
              ++ (certification_env spec.certification ++ (database_env spec.database ++ mode))))
            ≡ done env
          → values_of name env
            ≡ values_of name spec.env ++ values_of name (certification_env spec.certification)
      go (panic f) p q = cc
      go (done mode) p q = ground (
        arith,
        values_of-append name (function_env spec)
            (certification_env spec.certification ++ (database_env spec.database ++ mode)),
        values_of-append name (certification_env spec.certification)
            (database_env spec.database ++ mode),
        values_of-append name (database_env spec.database) mode,
        values_of-function_env spec,
        values_of-database_env spec.database,
        values_of-mode_env spec mode p,
        append-nil (values_of name (certification_env spec.certification)),
      )

values_of-certification_env :
    (c : Certification)
    → (values_of "NACOS_AUTH_ENABLE" (certification_env c) ≡ flag_values c.enabled)
      × (values_of "NACOS_AUTH_TOKEN_EXPIRE_SECONDS" (certification_env c)
          ≡ text_values c.token_expire_seconds)
      × (values_of "NACOS_AUTH_TOKEN" (certification_env c) ≡ text_values c.token)
      × (values_of "NACOS_AUTH_CACHE_ENABLE" (certification_env c) ≡ flag_values c.cache_enabled)
unfolding certification_env
values_of-certification_env c = ground arith

-- Whenever the environment is built, each variable about authentication is there exactly once after
-- those of the user if the resource gives its setting, `false` included, and is not there otherwise.
pub certification_tri_state :
    (spec : NacosSpec) (env : List EnvVar)
    → build_env spec ≡ done env
    → (values_of "NACOS_AUTH_ENABLE" env
        ≡ values_of "NACOS_AUTH_ENABLE" spec.env ++ flag_values spec.certification.enabled)
      × (values_of "NACOS_AUTH_TOKEN_EXPIRE_SECONDS" env
          ≡ values_of "NACOS_AUTH_TOKEN_EXPIRE_SECONDS" spec.env
            ++ text_values spec.certification.token_expire_seconds)
      × (values_of "NACOS_AUTH_TOKEN" env
          ≡ values_of "NACOS_AUTH_TOKEN" spec.env ++ text_values spec.certification.token)
      × (values_of "NACOS_AUTH_CACHE_ENABLE" env
          ≡ values_of "NACOS_AUTH_CACHE_ENABLE" spec.env
            ++ flag_values spec.certification.cache_enabled)
certification_tri_state spec env e =
    let own = values_of-certification_env spec.certification in
    (
      values_of-build_env "NACOS_AUTH_ENABLE"
            (refl, refl, refl, refl, refl, refl, refl, refl, refl, refl, refl) spec env e
          ∙ ap (λ vs. values_of "NACOS_AUTH_ENABLE" spec.env ++ vs) own.0,
      values_of-build_env "NACOS_AUTH_TOKEN_EXPIRE_SECONDS"
            (refl, refl, refl, refl, refl, refl, refl, refl, refl, refl, refl) spec env e
          ∙ ap (λ vs. values_of "NACOS_AUTH_TOKEN_EXPIRE_SECONDS" spec.env ++ vs) own.1,
      values_of-build_env "NACOS_AUTH_TOKEN"
            (refl, refl, refl, refl, refl, refl, refl, refl, refl, refl, refl) spec env e
          ∙ ap (λ vs. values_of "NACOS_AUTH_TOKEN" spec.env ++ vs) own.2,
      values_of-build_env "NACOS_AUTH_CACHE_ENABLE"
            (refl, refl, refl, refl, refl, refl, refl, refl, refl, refl, refl) spec env e
          ∙ ap (λ vs. values_of "NACOS_AUTH_CACHE_ENABLE" spec.env ++ vs) own.3,
    )
