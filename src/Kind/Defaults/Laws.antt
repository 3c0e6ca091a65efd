-- ===== src/Kind/Defaults/Laws.antt =====
-- What a validated resource satisfies.
use nacos_k8s.Base.{
  String, ◌≡◌, ◌≢◌, refl, sym, inl, inr, Bool, true, false, Option, none, some, arith, ◌==◌, eq_iff,
  Bool-cases, ◌∙◌,
}
use nacos_k8s.Api.{Certification, Database, Nacos}
use nacos_k8s.Kind.Defaults.{
  or_value, default_mysql, default_type, mysql_only, default_token, set_default_mysql,
  set_default_nacos_type, set_default_certification, default_certification, validation_field,
}

-- a string that is not empty
abbrev pub IsGiven : String → Type 0
IsGiven s = (s == "") ≡ false

or_value-IsGiven : (s v : String) → IsGiven v → IsGiven (or_value s v)
or_value-IsGiven s v h = ground arith

type_database-mysql_only : (d : Database) → (mysql_only d).type_database ≡ d.type_database
unfolding mysql_only default_mysql
type_database-mysql_only d = ground arith

default_type-IsGiven : (d : Database) → IsGiven (default_type d).type_database
unfolding default_type
default_type-IsGiven d = or_value-IsGiven d.type_database "embedded" refl

enabled-default_certification :
    (c : Certification) (b : Option Bool) → (default_certification c b).enabled ≡ c.enabled
unfolding default_certification
enabled-default_certification c (some true) = refl
enabled-default_certification c (some false) = refl
enabled-default_certification c none = refl

-- what the operator relies on after the validation
pub record IsValidated (n : Nacos) : Type 0 where
  pub has_type : IsGiven n.spec.type
  pub has_database : IsGiven n.spec.database.type_database
  pub has_mysql :
      n.spec.database.type_database ≡ "mysql"
      → IsGiven n.spec.database.mysql_host
        × IsGiven n.spec.database.mysql_port
        × IsGiven n.spec.database.mysql_db
        × IsGiven n.spec.database.mysql_user
        × IsGiven n.spec.database.mysql_password
  pub has_token :
      n.spec.certification.enabled ≡ some true
      → IsGiven n.spec.certification.token × IsGiven n.spec.certification.token_expire_seconds

mysql_only-IsGiven :
    (d : Database)
    → (mysql_only d).type_database ≡ "mysql"
    → IsGiven (mysql_only d).mysql_host
      × IsGiven (mysql_only d).mysql_port
      × IsGiven (mysql_only d).mysql_db
      × IsGiven (mysql_only d).mysql_user
      × IsGiven (mysql_only d).mysql_password
unfolding mysql_only default_mysql
mysql_only-IsGiven d h = elim (Bool-cases (d.type_database == "mysql")) [
  | inl p ↦ rw p (
    or_value-IsGiven d.mysql_host "127.0.0.1" refl,
    or_value-IsGiven d.mysql_port "3306" refl,
    or_value-IsGiven d.mysql_db "nacos" refl,
    or_value-IsGiven d.mysql_user "root" refl,
    or_value-IsGiven d.mysql_password "123456" refl,
  )
  | inr p ↦
      let named = (eq_iff d.type_database "mysql").1 (sym (type_database-mysql_only d) ∙ h) in
      absurd (cc (named, p))
]

default_certification-IsGiven :
    (c : Certification) (b : Option Bool)
    → b ≡ some true
    → IsGiven (default_certification c b).token
      × IsGiven (default_certification c b).token_expire_seconds
unfolding default_certification
default_certification-IsGiven c (some true) h = (
  or_value-IsGiven c.token default_token refl,
  or_value-IsGiven c.token_expire_seconds "18000" refl,
)
default_certification-IsGiven c (some false) h = cc
default_certification-IsGiven c none h = cc

-- Every resource that has passed the validation names its type and its database, has all MySQL
-- settings if the database is MySQL, and a token and its lifetime if authentication is on.
pub validation_field-IsValidated : (n : Nacos) → IsValidated (validation_field n)
unfolding set_default_nacos_type set_default_mysql set_default_certification validation_field
validation_field-IsValidated n = record {
  has_type = or_value-IsGiven n.spec.type "standalone" refl;
  has_database = rw type_database-mysql_only (default_type-IsGiven n.spec.database);
  has_mysql = mysql_only-IsGiven (default_type n.spec.database);
  has_token = λ h.
      default_certification-IsGiven n.spec.certification n.spec.certification.enabled
        (sym (enabled-default_certification n.spec.certification n.spec.certification.enabled) ∙ h);
}

-- Unless authentication is switched on explicitly, the validation leaves its settings as they are.
pub certification_untouched :
    (n : Nacos)
    → n.spec.certification.enabled ≢ some true
    → (validation_field n).spec.certification ≡ n.spec.certification
unfolding set_default_nacos_type set_default_mysql set_default_certification validation_field
    default_certification
certification_untouched n h = ground arith
