-- ===== src/Main/Sessions.antt =====
-- The sessions of server/main.c: the invariant of the table, and what a login stores.
use pal_ft.Base.{
  ◌≡◌, sym, ap, subst, ◌∙◌, inl, inr, none, some, some-injective, List, [], ◌∷◌, arith, ok,
  >>=-Ensures, if-Ensures, not, Ensures-ok, >>=-eq-ok, ok-injective, ok-Ensures, exited-Ensures,
}
use pal_ft.Libc.{Bytes}
use pal_ft.Main.{Env, Server, normalize_string}
use pal_ft.Main.Callback.{route, callback, serve}
use pal_ft.Main.Frame.Handle.{handle-Ensures}
use pal_ft.Main.Logins.{send-sessions}
use pal_ft.Main.Quotes.{IsClean, normalize_string-IsClean}
use pal_ft.Main.Startup.{start, run_all, create_tables, main}
use pal_ft.QueryParser.{qparser_init, qparser_parse}
use pal_ft.Tablec.{Table, tablec_set, tablec_get}
use pal_ft.Tablec.Lookup.{IsValid, tablec_init-IsValid, tablec_get-tablec_init}
use pal_ft.Tablec.Written.{tablec_set-Stored}

-- The table is well formed, and the user of every session holds no single quote.
pub record IsSound (t : Table Bytes) : Type 0 where
  pub valid : IsValid t
  pub clean : (key k user : Bytes) → tablec_get t key ≡ ok (some (k, user)) → IsClean user

-- A new session keeps it.
tablec_set-IsSound :
    (t t' : Table Bytes) (id email : Bytes)
    → IsSound t
    → tablec_set t id (normalize_string email) ≡ ok t'
    → IsSound t'
tablec_set-IsSound t t' id email sound e =
    let (t₁, e₁, stored) = tablec_set-Stored t id sound.valid (normalize_string email) in
    let new : IsSound t₁ = record {
      valid = stored.is_valid;
      clean = λ key k user got. elim (stored.either key) [
        | inl kept ↦ sound.clean key k user (sym kept ∙ got)
        | inr met ↦
            subst IsClean
              (ap (λ (p : Bytes × Bytes). p.1) (some-injective _ _ (ok-injective (sym met ∙ got))))
              (normalize_string-IsClean email)
      ];
    } in
    subst IsSound (ok-injective (sym e₁ ∙ e)) new

module _ {D : Type 0} (env : Env D) where
  pub callback-IsSound :
      (s s' : Server D) (path : Bytes)
      → IsSound s.sessions
      → callback env s path ≡ ok s'
      → IsSound s'.sessions
  unfolding callback
  callback-IsSound s s' path sound h =
      Ensures-ok _ _
        (>>=-Ensures (λ (t : Server D). IsSound t.sessions) (qparser_parse (qparser_init 10) path) _
          λ info.
            handle-Ensures env _ s (λ d r. send-sessions IsSound (record s { world = d }) r sound)
              (route path) info
              (λ _ email n d t _ e r.
                send-sessions IsSound (record s { world = d; sessions = t }) r
                  (tablec_set-IsSound s.sessions t _ email sound e)))
        h

  serve-IsSound :
      (s s' : Server D) (paths : List Bytes)
      → IsSound s.sessions
      → serve env s paths ≡ ok s'
      → IsSound s'.sessions
  unfolding serve
  serve-IsSound s s' [] sound h =
      subst (λ (t : Server D). IsSound t.sessions) (ok-injective h) sound
  serve-IsSound s s' (path ∷ paths) sound h =
      let (t, first, rest) = >>=-eq-ok (callback env s path) _ h in
      serve-IsSound t s' paths (callback-IsSound s t path sound first) rest

  pub start-IsSound : (d : D) (s : Server D) → start env d ≡ ok s → IsSound s.sessions
  unfolding start
  start-IsSound d s h =
      Ensures-ok _ _
        (if-Ensures (λ (t : Server D). IsSound t.sessions) (not (env.connect d).0) _ _
          (exited-Ensures _ 1)
          (>>=-Ensures _ (run_all env create_tables (env.connect d).1) _ λ d₂.
            ok-Ensures _ _ (record {
              valid = tablec_init-IsValid 4 (omega arith);
              clean = λ key k user got.
                  absurd (some_none (sym got ∙ tablec_get-tablec_init 4 key (omega arith)));
            })))
        h
    where
      some_none : {A : Type 0} {a : A} → ok (some a) ≡ ok none → ⊥
      some_none e = cc

  -- If the program, started on any outside state, gets through a list of requests, then the table
  -- of sessions is valid, and no user that a key finds in it holds a single quote.
  pub main-IsSound :
      (d : D) (paths : List Bytes) (s : Server D) → main env d paths ≡ ok s → IsSound s.sessions
  unfolding main
  main-IsSound d paths s h =
      let (s₀, started, rest) = >>=-eq-ok (start env d) _ h in
      serve-IsSound s₀ s paths (start-IsSound d s₀ started) rest
