-- ===== src/Main/Requests.antt =====
-- The statements of server/main.c for the parameters of a request: their lengths are what the query
-- parser allows, so no value leaves its literal.
use pal_ft.Base.{
  ◌≤◌, ◌≡◌, subst, none, some, some-injective, [], ◌∷◌, length, ok, Option-cases, inl, inr,
}
use pal_ft.Libc.{Bytes, codes}
use pal_ft.Main.{param, normalize_string}
use pal_ft.Main.Injection.{login_sql-pieces}
use pal_ft.Main.Quotes.{split_quotes}
use pal_ft.Main.Sql.{login_sql}
use pal_ft.QueryParser.{Info, qparser_init, qparser_parse, qparser_get_query}
use pal_ft.QueryParser.Ends.{qparser_get_query-length}

pub param-length :
    (path key : Bytes) (info : Info) (value : Bytes)
    → qparser_parse (qparser_init 10) path ≡ ok info
    → param info key ≡ some value
    → length value ≤ 1023
unfolding param
param-length path key info value parsed given_value =
    elim (Option-cases (qparser_get_query info key)) [
      | inl e ↦ absurd (none_some (rw (e, param) at given_value))
      | inr (q, e) ↦
          subst (λ v. length v ≤ 1023) (some-injective _ _ (rw (e, param) at given_value))
            (qparser_get_query-length 10 path key info q parsed e)
    ]
  where
    none_some : {A : Type 0} {a : A} → none ≡ some a → ⊥
    none_some e = cc

-- For the email and the password that the query of any path gives, once the path is parsed, the
-- login statement split at its single quotes is the fixed text with the two values between their
-- quotes: the parser lets no value through that the buffer would cut off.
pub login_request-pieces :
    (path email password : Bytes) (info : Info)
    → qparser_parse (qparser_init 10) path ≡ ok info
    → param info (codes "email") ≡ some email
    → param info (codes "password") ≡ some password
    → split_quotes (login_sql email password)
      ≡ codes "SELECT * FROM usuarios WHERE email="
        ∷ normalize_string email
        ∷ codes " AND senha="
        ∷ normalize_string password
        ∷ codes ";"
        ∷ []
login_request-pieces path email password info parsed e p =
    login_sql-pieces email password (param-length path _ info email parsed e)
      (param-length path _ info password parsed p)
