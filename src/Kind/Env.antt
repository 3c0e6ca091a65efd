-- ===== src/Kind/Env.antt =====
-- Kind.go, the first half of `buildStatefulset`: the environment variables of the Nacos container.
pub mod Laws
pub mod Modes
use nacos_k8s.Base.{String, Bool, Option, none, some, List, [], ◌∷◌, ◌++◌, ◌==◌, if◌then◌else◌}
use nacos_k8s.Go.Format.{itoa, format_bool}
use nacos_k8s.Errors.{Outcome, done}
use nacos_k8s.Kube.{EnvVar, env_var}
use nacos_k8s.Api.{Certification, Database, NacosSpec}
use nacos_k8s.Environment.{and_then, dereference}
use nacos_k8s.Kind.Defaults.{type_stand_alone}

-- The cases of the `switch` append to `nacos.Spec.Env`, and not to the `env` above it.
unfoldable pub function_env : NacosSpec → List EnvVar
function_env spec =
    if spec.function_mode == "naming"
    then spec.env ++ env_var "FUNCTION_MODE" "naming" ∷ []
    else if spec.function_mode == "config"
    then spec.env ++ env_var "FUNCTION_MODE" "config" ∷ []
    else spec.env ++ env_var "PREFER_HOST_MODE" "hostname" ∷ []

-- `if p != nil { append(env, EnvVar{name, FormatBool(*p)}) }`
flag_env : String → Option Bool → List EnvVar
unfolding format_bool
flag_env name none = []
flag_env name (some b) = env_var name (format_bool b) ∷ []

-- `if s != "" { append(env, EnvVar{name, s}) }`
text_env : String → String → List EnvVar
text_env name s = if s == "" then [] else env_var name s ∷ []

unfoldable pub certification_env : Certification → List EnvVar
unfolding flag_env text_env
certification_env c =
    flag_env "NACOS_AUTH_ENABLE" c.enabled
    ++ (text_env "NACOS_AUTH_TOKEN_EXPIRE_SECONDS" c.token_expire_seconds
        ++ (text_env "NACOS_AUTH_TOKEN" c.token
            ++ flag_env "NACOS_AUTH_CACHE_ENABLE" c.cache_enabled))

unfoldable pub database_env : Database → List EnvVar
database_env d =
    if d.type_database == "embedded"
    then env_var "EMBEDDED_STORAGE" "embedded" ∷ []
    else if d.type_database == "mysql"
    then env_var "SPRING_DATASOURCE_PLATFORM" d.type_database
      ∷ env_var "MYSQL_SERVICE_HOST" d.mysql_host
      ∷ env_var "MYSQL_SERVICE_PORT" d.mysql_port
      ∷ env_var "MYSQL_SERVICE_DB_NAME" d.mysql_db
      ∷ env_var "MYSQL_SERVICE_USER" d.mysql_user
      ∷ env_var "MYSQL_SERVICE_PASSWORD" d.mysql_password
      ∷ []
    else []

-- reads the replicas only where the type is not `standalone`
unfoldable pub mode_env : NacosSpec → Outcome (List EnvVar)
unfolding itoa
mode_env spec =
    if spec.type == type_stand_alone
    then done (env_var "MODE" "standalone" ∷ [])
    else (and_then (dereference spec.replicas) λ n. done (env_var "NACOS_REPLICAS" (itoa n) ∷ []))

unfoldable pub build_env : NacosSpec → Outcome (List EnvVar)
unfolding function_env certification_env database_env mode_env
build_env spec = and_then (mode_env spec) λ mode. done (
    function_env spec
    ++ (certification_env spec.certification ++ (database_env spec.database ++ mode)))
