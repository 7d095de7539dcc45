-- ===== src/Tests/Runs.antt =====
-- Runs of the model on concrete requests.
use pal_ft.Base.{◌≡◌, refl, Outcome, ok, ◌>>=◌, List, [], ◌∷◌, length, some, none}
use pal_ft.Libc.{Bytes, codes, pos, negsuc, atoi}
use pal_ft.Main.{Server, param}
use pal_ft.Main.Callback.{callback}
use pal_ft.Main.Startup.{main}
use pal_ft.SessionId.{generate_session_id}
use pal_ft.QueryParser.{Info, qparser_init, qparser_parse}
use pal_ft.Tests.World.{Log, env, empty, program}

abbrev requests : List Bytes
requests =
    codes "/api/register?name=Ana&email=a@b.c&password=x'y"
    ∷ codes "/api/login?email=a@b.c&password=x'y"
    ∷ codes "/api/carrinho/add?produto=Bul+ba&session=HMRWbglqv05AFKPU"
    ∷ codes "/api/carrinho/lista?session=HMRWbglqv05AFKPU"
    ∷ codes "/api/carrinho/lista?session=nobody"
    ∷ codes "/api/produtos/lista"
    ∷ []

atoi_runs : (atoi (codes " -42x") ≡ negsuc 41) × (atoi (codes "4294967297") ≡ pos 1)
unfolding atoi
atoi_runs = (refl, refl)

abbrev pub result {ℓ} : {A : Type ℓ} → Outcome A → A → A
result (ok a) other = a
result _ other = other

abbrev pub info_of : Bytes → Info
info_of path = result (qparser_parse (qparser_init 10) path) (qparser_init 10)

parameter_lost : param (info_of (codes "/?a&bc=3")) (codes "bc") ≡ none
unfolding program
parameter_lost = refl

parameters : param (info_of (codes "/x?key=value&n=12")) (codes "n") ≡ some (codes "12")
unfolding program
parameters = refl

-- The statements of the requests, the last one first.
abbrev asked : List Bytes
asked =
    codes "SELECT * FROM produtos;"
    ∷ codes "SELECT * FROM produtos WHERE nome='folha';"
    ∷ codes "SELECT * FROM carrinho WHERE usuario='a@b.c';"
    ∷ codes "INSERT INTO carrinho (usuario, produto) VALUES ('a@b.c', 'Bul ba');"
    ∷ codes "SELECT * FROM usuarios WHERE email='a@b.c' AND senha='x\"y';"
    ∷ codes "INSERT INTO usuarios (nome, email, senha) VALUES ('Ana', 'a@b.c', 'x\"y');"
    ∷ codes "CREATE TABLE IF NOT EXISTS carrinho (usuario TEXT NOT NULL, produto TEXT NOT NULL);"
    ∷ codes
        "CREATE TABLE IF NOT EXISTS usuarios (nome TEXT NOT NULL, email TEXT NOT NULL, senha TEXT NOT NULL);"
    ∷ codes
        "CREATE TABLE IF NOT EXISTS produtos (nome TEXT NOT NULL, tipo TEXT NOT NULL, imagem TEXT NOT NULL, preco INT NOT NULL);"
    ∷ []

statements : (main env [] requests >>= λ s. ok s.world) ≡ ok asked
unfolding program
statements = refl

answers : (main env [] requests >>= λ s. ok (length s.sent)) ≡ ok 6
unfolding program
answers = refl

-- A login, the server after it, the id of its session and its parameters.
abbrev pub login_path : Bytes
login_path = codes "/api/login?email=a@b.c&password=xy"

abbrev pub logged : Server Log
logged = result (callback env empty login_path) empty

pub login_runs : callback env empty login_path ≡ ok logged
unfolding program
login_runs = refl

abbrev pub id : Bytes
id = generate_session_id (env.rand 7)

abbrev pub info : Info
info = info_of login_path
