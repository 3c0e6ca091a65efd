-- ===== src/Kind/Defaults/Kept.antt =====
-- What the validation keeps of the user's settings.
use nacos_k8s.Base.{
  String, ◌≡◌, refl, inl, inr, Bool, true, false, Option, none, some, List, [], ◌∷◌, ◌==◌,
  Bool-cases, arith, ◌∙◌,
}
use nacos_k8s.Api.{Certification, Database, Nacos, NacosSpec}
use nacos_k8s.Kind.Defaults.{
  or_value, default_mysql, default_type, mysql_only, default_token, set_default_mysql,
  set_default_nacos_type, set_default_certification, default_certification, validation_field,
}
use nacos_k8s.Kind.Defaults.Laws.{IsGiven}

-- the settings that have defaults
abbrev pub settings : NacosSpec → List String
settings spec =
    spec.type ∷ spec.database.type_database ∷ spec.database.mysql_host ∷ spec.database.mysql_port
    ∷ spec.database.mysql_db ∷ spec.database.mysql_user ∷ spec.database.mysql_password
    ∷ spec.certification.token ∷ spec.certification.token_expire_seconds ∷ []

-- the second list has every text of the first that is not empty, at its place
abbrev pub Fills : List String → List String → Type 0
Fills [] [] = Unit
Fills [] (t ∷ ts) = ⊥
Fills (s ∷ ss) [] = ⊥
Fills (s ∷ ss) (t ∷ ts) = (IsGiven s → t ≡ s) × Fills ss ts

-- the resource with the settings of another, all else unchanged
abbrev pub with_settings : Nacos → NacosSpec → Nacos
with_settings n spec = record n {
  spec = record (n.spec) {
    type = spec.type;
    database = spec.database;
    certification = record (n.spec.certification) {
      token = spec.certification.token;
      token_expire_seconds = spec.certification.token_expire_seconds;
    };
  };
}

given : (s v : String) → IsGiven s → or_value s v ≡ s
given s v h = ground arith

-- a part of the database that the MySQL defaults fill or leave
filled :
    (part : Database → String) (v : String) (d : Database)
    → part (default_mysql d) ≡ or_value (part d) v
    → IsGiven (part d)
    → part (mysql_only d) ≡ part d
unfolding mysql_only
filled part v d p h = elim (Bool-cases (d.type_database == "mysql")) [
  | inl q ↦ rw q (p ∙ given (part d) v h)
  | inr q ↦ rw q refl
]

same_type : (d : Database) → (mysql_only d).type_database ≡ d.type_database
unfolding mysql_only default_mysql
same_type d = ground arith

kept_token :
    (c : Certification) (b : Option Bool)
    → IsGiven c.token
    → (default_certification c b).token ≡ c.token
unfolding default_certification
kept_token c (some true) h = given c.token default_token h
kept_token c (some false) h = refl
kept_token c none h = refl

kept_expiry :
    (c : Certification) (b : Option Bool)
    → IsGiven c.token_expire_seconds
    → (default_certification c b).token_expire_seconds ≡ c.token_expire_seconds
unfolding default_certification
kept_expiry c (some true) h = given c.token_expire_seconds "18000" h
kept_expiry c (some false) h = refl
kept_expiry c none h = refl

only_settings :
    (c : Certification) (b : Option Bool)
    → default_certification c b ≡ record c {
      token = (default_certification c b).token;
      token_expire_seconds = (default_certification c b).token_expire_seconds;
    }
unfolding default_certification
only_settings c (some true) = refl
only_settings c (some false) = refl
only_settings c none = refl

-- The validation keeps every setting with a default that the user has given, a text that is not empty,
-- and changes no other part of the resource: not the status, not the metadata, and of the
-- specification only the type, the database and the token with its lifetime.
pub validation_field-Fills :
    (n : Nacos)
    → Fills (settings n.spec) (settings (validation_field n).spec)
      × (validation_field n ≡ with_settings n (validation_field n).spec)
unfolding validation_field set_default_nacos_type set_default_mysql set_default_certification
    default_type default_mysql
validation_field-Fills n =
    let c = n.spec.certification in
    let d = default_type n.spec.database in
    (
      (
        given n.spec.type "standalone",
        (
          λ h. same_type d ∙ given n.spec.database.type_database "embedded" h,
          (
            filled (λ d. d.mysql_host) "127.0.0.1" d refl,
            (
              filled (λ d. d.mysql_port) "3306" d refl,
              (
                filled (λ d. d.mysql_db) "nacos" d refl,
                (
                  filled (λ d. d.mysql_user) "root" d refl,
                  (
                    filled (λ d. d.mysql_password) "123456" d refl,
                    (kept_token c c.enabled, (kept_expiry c c.enabled, tt)),
                  ),
                ),
              ),
            ),
          ),
        ),
      ),
      λ i. record n {
        spec = record (n.spec) {
          type = or_value n.spec.type "standalone";
          database = mysql_only d;
          certification = only_settings c c.enabled i;
        };
      },
    )
