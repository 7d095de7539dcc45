-- ===== src/Main/Routes.antt =====
-- The order of the tests in `callback` of server/main.c does not matter: no two prefixes fit one path.
use pal_ft.Base.{◌≡◌, ◌≢◌, refl, Bool, true, false, [], ◌∷◌, arith, ◌==◌, if◌then◌else◌, ok}
use pal_ft.Libc.{Bytes, codes, starts_with}
use pal_ft.Main.{Env, Server, send}
use pal_ft.Main.Callback.{Route, route, callback, not_found, handle}
use pal_ft.QueryParser.{Info, qparser_init, qparser_parse}

-- Two texts that differ at some place before the end of both.
clash : Bytes → Bytes → Bool
clash [] b = false
clash (_ ∷ _) [] = false
clash (x ∷ a) (y ∷ b) = if x == y then clash a b else true

clash_sound : (a b s : Bytes) → clash a b ≡ true → starts_with a s ≡ true → starts_with b s ≡ false
unfolding clash starts_with
clash_sound [] b s c h = cc
clash_sound (x ∷ a) [] s c h = cc
clash_sound (x ∷ a) (y ∷ b) [] c h = cc
clash_sound (x ∷ a) (y ∷ b) (z ∷ s) c h = ground (arith, clash_sound a b s)

-- The prefix of each route.
abbrev pub prefix : Route → Bytes
prefix Route.products = codes "/api/produtos/lista"
prefix Route.register = codes "/api/register"
prefix Route.login = codes "/api/login"
prefix Route.check_session = codes "/api/session/check"
prefix Route.add_product = codes "/api/produtos/add"
prefix Route.delete_product = codes "/api/produtos/del"
prefix Route.add_to_cart = codes "/api/carrinho/add"
prefix Route.delete_from_cart = codes "/api/carrinho/del"
prefix Route.cart = codes "/api/carrinho/lista"
prefix Route.unknown = []

off :
    (r q : Route) (path : Bytes)
    → clash (prefix r) (prefix q) ≡ true
    → starts_with (prefix r) path ≡ true
    → starts_with (prefix q) path ≡ false
off r q path c h = clash_sound (prefix r) (prefix q) path c h

-- A path that begins with the prefix of a route takes that route, whichever tests come before it.
pub route-prefix :
    (r : Route) (path : Bytes)
    → r ≢ Route.unknown
    → starts_with (prefix r) path ≡ true
    → route path ≡ r
unfolding route clash
route-prefix Route.products path known h = rw h
route-prefix Route.register path known h = rw (off Route.register Route.products path refl h, h)
route-prefix Route.login path known h =
    rw (off Route.login Route.products path refl h, off Route.login Route.register path refl h, h)
route-prefix Route.check_session path known h = rw (
  off Route.check_session Route.products path refl h,
  off Route.check_session Route.register path refl h,
  off Route.check_session Route.login path refl h,
  h,
)
route-prefix Route.add_product path known h = rw (
  off Route.add_product Route.products path refl h,
  off Route.add_product Route.register path refl h,
  off Route.add_product Route.login path refl h,
  off Route.add_product Route.check_session path refl h,
  h,
)
route-prefix Route.delete_product path known h = rw (
  off Route.delete_product Route.products path refl h,
  off Route.delete_product Route.register path refl h,
  off Route.delete_product Route.login path refl h,
  off Route.delete_product Route.check_session path refl h,
  off Route.delete_product Route.add_product path refl h,
  h,
)
route-prefix Route.add_to_cart path known h = rw (
  off Route.add_to_cart Route.products path refl h,
  off Route.add_to_cart Route.register path refl h,
  off Route.add_to_cart Route.login path refl h,
  off Route.add_to_cart Route.check_session path refl h,
  off Route.add_to_cart Route.add_product path refl h,
  off Route.add_to_cart Route.delete_product path refl h,
  h,
)
route-prefix Route.delete_from_cart path known h = rw (
  off Route.delete_from_cart Route.products path refl h,
  off Route.delete_from_cart Route.register path refl h,
  off Route.delete_from_cart Route.login path refl h,
  off Route.delete_from_cart Route.check_session path refl h,
  off Route.delete_from_cart Route.add_product path refl h,
  off Route.delete_from_cart Route.delete_product path refl h,
  off Route.delete_from_cart Route.add_to_cart path refl h,
  h,
)
route-prefix Route.cart path known h = rw (
  off Route.cart Route.products path refl h,
  off Route.cart Route.register path refl h,
  off Route.cart Route.login path refl h,
  off Route.cart Route.check_session path refl h,
  off Route.cart Route.add_product path refl h,
  off Route.cart Route.delete_product path refl h,
  off Route.cart Route.add_to_cart path refl h,
  off Route.cart Route.delete_from_cart path refl h,
  h,
)
route-prefix Route.unknown path known h = absurd (known refl)

-- A request on /api/session/check whose query parses is answered like a path that is not known,
-- whatever the session is.
pub check_session_answer :
    {D : Type 0} (env : Env D) (s : Server D) (path : Bytes) (info : Info)
    → starts_with (codes "/api/session/check") path ≡ true
    → qparser_parse (qparser_init 10) path ≡ ok info
    → callback env s path ≡ send s not_found
unfolding callback handle
check_session_answer env s path info h parsed =
    rw (parsed, route-prefix Route.check_session path (λ e. cc) h)
