-- ===== src/Kind/Env/Modes.antt =====
-- The variables that the function mode decides on.
use nacos_k8s.Base.{
  String, ◌≡◌, refl, Bool, List, [], ◌∷◌, ◌++◌, ◌==◌, ◌||◌, arith, if◌then◌else◌, Bool-cases, inl,
  inr,
}
use mathlib.Core.List.{append-nil}
use nacos_k8s.Errors.{Outcome, done, panic}
use nacos_k8s.Kube.{EnvVar, env_var}
use nacos_k8s.Api.{NacosSpec, Certification, Database}
use nacos_k8s.Environment.{and_then}
use nacos_k8s.Kind.Env.{function_env, certification_env, database_env, mode_env, build_env}
use nacos_k8s.Kind.Env.Laws.{values_of, values_of-append}

-- what the mode adds to the user's variables
abbrev pub mode_values : Bool → List String
mode_values b = if b then [] else "hostname" ∷ []

preferred-certification_env :
    (c : Certification) → values_of "PREFER_HOST_MODE" (certification_env c) ≡ []
unfolding certification_env
preferred-certification_env c = ground arith

preferred-database_env : (d : Database) → values_of "PREFER_HOST_MODE" (database_env d) ≡ []
unfolding database_env
preferred-database_env d = ground arith

preferred-mode_env :
    (spec : NacosSpec) (mode : List EnvVar)
    → mode_env spec ≡ done mode
    → values_of "PREFER_HOST_MODE" mode ≡ []
unfolding mode_env
preferred-mode_env spec mode e = ground arith

preferred-function_env :
    (spec : NacosSpec)
    → values_of "PREFER_HOST_MODE" (function_env spec)
      ≡ values_of "PREFER_HOST_MODE" spec.env
        ++ mode_values (spec.function_mode == "naming" || spec.function_mode == "config")
unfolding function_env
preferred-function_env spec = elim (Bool-cases (spec.function_mode == "naming")) [
  | inl p ↦
      rw p (values_of-append "PREFER_HOST_MODE" spec.env (env_var "FUNCTION_MODE" "naming" ∷ []))
  | inr p ↦ elim (Bool-cases (spec.function_mode == "config")) [
    | inl q ↦
        rw (p, q)
          (values_of-append "PREFER_HOST_MODE" spec.env (env_var "FUNCTION_MODE" "config" ∷ []))
    | inr q ↦
        rw (p, q)
          (values_of-append "PREFER_HOST_MODE" spec.env
            (env_var "PREFER_HOST_MODE" "hostname" ∷ []))
  ]
]

-- Whenever the environment is built, the operator adds the variable PREFER_HOST_MODE with the value
-- `hostname` to those of the user exactly when the function mode is neither `naming` nor `config`:
-- with one of these two modes it is lost.
pub prefer_host_mode :
    (spec : NacosSpec) (env : List EnvVar)
    → build_env spec ≡ done env
    → values_of "PREFER_HOST_MODE" env
      ≡ values_of "PREFER_HOST_MODE" spec.env
        ++ mode_values (spec.function_mode == "naming" || spec.function_mode == "config")
unfolding build_env
prefer_host_mode spec env e = go (mode_env spec) refl e
  where
    go :
        (m : Outcome (List EnvVar))
        → mode_env spec ≡ m
        → and_then m (λ mode. done (
            function_env spec
            ++ (certification_env spec.certification ++ (database_env spec.database ++ mode))))
          ≡ done env
        → values_of "PREFER_HOST_MODE" env
          ≡ values_of "PREFER_HOST_MODE" spec.env
            ++ mode_values (spec.function_mode == "naming" || spec.function_mode == "config")
    go (panic f) p q = cc
    go (done mode) p q = ground (
      arith,
      values_of-append "PREFER_HOST_MODE" (function_env spec)
          (certification_env spec.certification ++ (database_env spec.database ++ mode)),
      values_of-append "PREFER_HOST_MODE" (certification_env spec.certification)
          (database_env spec.database ++ mode),
      values_of-append "PREFER_HOST_MODE" (database_env spec.database) mode,
      preferred-function_env spec,
      preferred-certification_env spec.certification,
      preferred-database_env spec.database,
      preferred-mode_env spec mode p,
      append-nil (values_of "PREFER_HOST_MODE" (function_env spec)),
    )
