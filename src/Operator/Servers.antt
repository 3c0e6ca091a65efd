-- ===== src/Operator/Servers.antt =====
-- operator/pkg/service/nacos/cluster.go: the HTTP request to one Nacos server.
use Prim.Native.Char.{code}
use nacos_k8s.Base.{ℕ, String, Bool, true, false, Option, none, some, [], ◌∷◌, eqb, if◌then◌else◌}
use nacos_k8s.Go.Format.{sprintf}
use nacos_k8s.Errors.{Error, failure, error_text, Exec, pure, ◌>>=◌}
use nacos_k8s.Environment.{Environment, ServersInfo, Reply, got, refused, call}

-- `strings.Contains(s, c)` of a one-byte text
unfoldable pub contains_char : ℕ → String → Bool
contains_char c String.[] = false
contains_char c (String.◌∷◌ d s) = if eqb (code d) c then true else contains_char c s

-- an IPv6 address stands in brackets
unfoldable pub servers_url : String → String
unfolding contains_char sprintf
servers_url ip =
    if contains_char b':' ip
    then sprintf "http://[%s]:8848/nacos/v1/ns/operator/servers" (ip ∷ [])
    else sprintf "http://%s:8848/nacos/v1/ns/operator/servers" (ip ∷ [])

abbrev no_servers : ServersInfo
no_servers = record { servers = [] }

module _ {K : Type 0} (e : Environment K) where
  -- the servers, and the error; a body that is no JSON stands in the error, whose text is formatted
  -- twice
  unfoldable pub decoded : String → String → Reply ServersInfo → ServersInfo × Option Error
  unfolding sprintf
  decoded ip b (got info) = (info, none)
  decoded ip b (refused err) = (
    no_servers,
    some
        (failure (e.errorf (sprintf "instance: %s ; %s ;body: %v" (ip ∷ error_text err ∷ b ∷ [])))),
  )

  unfoldable pub decode_body : String → Reply String → ServersInfo × Option Error
  unfolding decoded
  decode_body ip (refused err) = (no_servers, some err)
  decode_body ip (got b) = decoded ip b (e.unmarshal b)

  unfoldable pub read_response : String → Reply String → Exec K (ServersInfo × Option Error)
  unfolding decode_body
  read_response ip (refused err) = pure (no_servers, some err)
  read_response ip (got r) = do body ← call (e.read_all r); pure (decode_body ip body)

  unfoldable pub get_cluster_nodes : String → Exec K (ServersInfo × Option Error)
  unfolding servers_url read_response
  get_cluster_nodes ip = do resp ← call (e.http_get (servers_url ip)); read_response ip resp
