-- ===== src/Kind/Defaults.antt =====
-- Kind.go: `ValidationField` and the defaults that it sets. The methods mutate the resource; here
-- they return it.
pub mod Kept
pub mod Laws
use nacos_k8s.Base.{String, Bool, true, false, Option, none, some, ◌==◌, if◌then◌else◌}
use nacos_k8s.Api.{Certification, Database, NacosSpec, Nacos}

abbrev pub type_stand_alone : String
type_stand_alone = "standalone"

abbrev pub type_cluster : String
type_cluster = "cluster"

-- `if s == "" { s = value }`
abbrev pub or_value : String → String → String
or_value s value = if s == "" then value else s

unfoldable pub set_default_nacos_type : Nacos → Nacos
set_default_nacos_type nacos = record nacos {
  spec = record (nacos.spec) { type = or_value nacos.spec.type "standalone" };
}

unfoldable pub default_mysql : Database → Database
default_mysql d = record d {
  mysql_host = or_value d.mysql_host "127.0.0.1";
  mysql_user = or_value d.mysql_user "root";
  mysql_db = or_value d.mysql_db "nacos";
  mysql_password = or_value d.mysql_password "123456";
  mysql_port = or_value d.mysql_port "3306";
}

unfoldable pub default_type : Database → Database
default_type d = record d { type_database = or_value d.type_database "embedded" }

unfoldable pub mysql_only : Database → Database
mysql_only d = if d.type_database == "mysql" then default_mysql d else d

unfoldable pub set_default_mysql : Nacos → Nacos
set_default_mysql nacos = record nacos {
  spec = record (nacos.spec) { database = mysql_only (default_type nacos.spec.database) };
}

abbrev pub default_token : String
default_token = "SecretKey012345678901234567890123456789012345678901234567890123456789"

unfoldable pub default_certification : Certification → Option Bool → Certification
default_certification c (some true) = record c {
  token = or_value c.token default_token;
  token_expire_seconds = or_value c.token_expire_seconds "18000";
}
default_certification c (some false) = c
default_certification c none = c

unfoldable pub set_default_certification : Nacos → Nacos
set_default_certification nacos =
    let c : Certification = nacos.spec.certification in
    record nacos {
      spec = record (nacos.spec) { certification = default_certification c c.enabled };
    }

unfoldable pub validation_field : Nacos → Nacos
validation_field nacos =
    set_default_certification (set_default_mysql (set_default_nacos_type nacos))
