-- ===== src/Main/System/Origins.antt =====
-- Where the sessions of server/main.c come from, with its threads.
use pal_ft.Base.{
  ◌≡◌, refl, sym, ap, ◌∙◌, ◌⊎◌, inl, inr, some, some-injective, none, List, [], ◌∷◌, ◌++◌, arith,
  ok, ok-injective, >>=-eq-ok, Ensures-ok, not, if-Ensures, exited-Ensures, >>=-Ensures, ok-Ensures,
}
use pal_ft.HttpParser.{Request}
use pal_ft.HttpServer.Listen.{bad_request}
use pal_ft.Libc.{Bytes}
use pal_ft.Main.{Env, Server, send, normalize_string}
use pal_ft.Main.Callback.{callback}
use pal_ft.Main.Connection.{request_callback}
use pal_ft.Main.Logins.{LoggedIn, callback-LoggedIn, send-sessions}
use pal_ft.Main.Sessions.{callback-IsSound, start-IsSound}
use pal_ft.Main.Sessions
use pal_ft.Main.Startup.{start, run_all, create_tables}
use pal_ft.Main.System.{System, Event, silent, asked, refused, Reached, replay}
use pal_ft.Main.System.Serial.{replay-Sessions, request_callback-callback, Run-replay, replay-cons}
use pal_ft.SessionId.{generate_session_id}
use pal_ft.Tablec.{tablec_init, tablec_get}
use pal_ft.Tablec.Lookup.{tablec_get-tablec_init}
use pal_ft.Tablec.Written.{tablec_set-Stored}

module _ {D : Type 0} (env : Env D) where
  -- The request among the events at which a session was stored: after the earlier ones, its login
  -- was admitted, and the session has the id that was drawn and the email that was given.
  pub record Origin (start : Server D) (events : List Event) (id user : Bytes) : Type 0 where
    pub earlier : List Event
    pub request : Request
    pub later : List Event
    pub split : events ≡ earlier ++ asked request ∷ later
    pub before : Server D
    pub after : Server D
    pub path : Bytes
    pub reached : replay env start earlier ≡ ok before
    pub on_path : request.path ≡ some path
    pub called : callback env before path ≡ ok after
    pub login : LoggedIn env before path after.sessions
    pub drawn : id ≡ generate_session_id (env.rand login.seed)
    pub named : user ≡ normalize_string login.email

  -- The origin with one more event in front.
  behind :
      (s s' : Server D) (event : Event) (events : List Event) (id user : Bytes)
      → replay env s (event ∷ []) ≡ ok s'
      → Origin s' events id user
      → Origin s (event ∷ events) id user
  behind s s' event events id user one o = record {
    earlier = event ∷ o.earlier;
    request = o.request;
    later = o.later;
    split = ap (λ l. event ∷ l) o.split;
    before = o.before;
    after = o.after;
    path = o.path;
    reached = replay-cons env s s' o.before event o.earlier one o.reached;
    on_path = o.on_path;
    called = o.called;
    login = o.login;
    drawn = o.drawn;
    named = o.named;
  }

  -- A session after one request was there before, or is that of its login.
  stored_at :
      (s t : Server D) (request : Request) (events : List Event) (key id user : Bytes)
      → Sessions.IsSound s.sessions
      → request_callback env s request ≡ ok t
      → tablec_get t.sessions key ≡ ok (some (id, user))
      → (tablec_get s.sessions key ≡ ok (some (id, user)))
        ⊎ Origin s (asked request ∷ events) id user
  unfolding replay
  stored_at s t request events key id user sound answered got =
      let (path, on_path, called) = request_callback-callback env s t request answered in
      elim (callback-LoggedIn env s t path called) [
        | inl same ↦ inl (ap (λ l. tablec_get l key) (sym same) ∙ got)
        | inr login ↦
            let (t₁, set_to, stored) =
              tablec_set-Stored s.sessions (generate_session_id (env.rand login.seed)) sound.valid
                (normalize_string login.email) in
            let now : tablec_get t₁ key ≡ ok (some (id, user)) =
              ap (λ l. tablec_get l key) (ok-injective (sym set_to ∙ login.stored)) ∙ got in
            elim (stored.either key) [
              | inl kept ↦ inl (sym kept ∙ now)
              | inr met ↦
                  let entry : (id, user)
                      ≡ (generate_session_id (env.rand login.seed), normalize_string login.email) =
                    some-injective _ _ (ok-injective (sym now ∙ met)) in
                  inr (record {
                    earlier = [];
                    request = request;
                    later = events;
                    split = refl;
                    before = s;
                    after = t;
                    path = path;
                    reached = refl;
                    on_path = on_path;
                    called = called;
                    login = login;
                    drawn = ap (λ (p : Bytes × Bytes). p.0) entry;
                    named = ap (λ (p : Bytes × Bytes). p.1) entry;
                  })
            ]
      ]

  replay-Origin :
      (s t : Server D) (events : List Event) (key id user : Bytes)
      → Sessions.IsSound s.sessions
      → replay env s events ≡ ok t
      → tablec_get t.sessions key ≡ ok (some (id, user))
      → (tablec_get s.sessions key ≡ ok (some (id, user))) ⊎ Origin s events id user
  unfolding replay
  replay-Origin s t [] key id user sound e got =
      inl (ap (λ (u : Server D). tablec_get u.sessions key) (ok-injective e) ∙ got)
  replay-Origin s t (silent ∷ events) key id user sound e got =
      elim (replay-Origin s t events key id user sound e got) [
        | inl old ↦ inl old
        | inr o ↦ inr (behind s s silent events id user refl o)
      ]
  replay-Origin s t (asked request ∷ events) key id user sound e got =
      let (u, first, rest) = >>=-eq-ok (request_callback env s request) _ e in
      let one : replay env s (asked request ∷ []) ≡ ok u = rw first refl in
      elim (replay-Origin u t events key id user
        (replay-Sessions env s u (asked request ∷ []) one sound) rest got) [
          | inl old ↦ stored_at s u request events key id user sound first old
          | inr o ↦ inr (behind s u (asked request) events id user one o)
        ]
  replay-Origin s t (refused ∷ events) key id user sound e got =
      let (u, first, rest) = >>=-eq-ok (send s bad_request) _ e in
      let one : replay env s (refused ∷ []) ≡ ok u = rw first refl in
      elim (replay-Origin u t events key id user (replay-Sessions env s u (refused ∷ []) one sound)
        rest got) [
          | inl old ↦
              let same =
                Ensures-ok _ _ (send-sessions (λ l. l ≡ s.sessions) s bad_request refl) first in
              inl (ap (λ l. tablec_get l key) (sym same) ∙ old)
          | inr o ↦ inr (behind s u refused events id user one o)
        ]

  start-sessions : (d : D) (s : Server D) → start env d ≡ ok s → s.sessions ≡ tablec_init 4
  unfolding start
  start-sessions d s h =
      Ensures-ok _ _
        (if-Ensures (λ (t : Server D). t.sessions ≡ tablec_init 4) (not (env.connect d).0) _ _
          (exited-Ensures _ 1)
          (>>=-Ensures _ (run_all env create_tables (env.connect d).1) _ λ d₂. ok-Ensures _ _ refl))
        h

  -- Whatever the threads of the connections do in whatever order, every session that a key finds
  -- in a system that the program has got to was stored by one of the requests that were answered:
  -- after the ones before it had run one by one, its callback returned, its path was one of
  -- /api/login whose query gave an email and a password, and the login statement returned a row;
  -- the session has the id that was drawn then, and its user is that email with its quotes
  -- replaced.
  pub Reached-Origin :
      {V : Type 0} (d : D) (events : List Event) (t : System D V) (key id user : Bytes)
      → (r : Reached env d events t) → tablec_get t.server.sessions key ≡ ok (some (id, user))
      → Origin r.server events id user
  Reached-Origin d events t key id user r got =
      elim (replay-Origin r.server t.server events key id user
        (start-IsSound env d r.server r.started) (Run-replay env r.run) got) [
          | inl old ↦ absurd (
              no_entry (
                sym old
                ∙ (ap (λ l. tablec_get l key) (start-sessions d r.server r.started)
                    ∙ tablec_get-tablec_init 4 key (omega arith))))
          | inr o ↦ o
        ]
    where
      no_entry : {A : Type 0} {a : A} → ok (some a) ≡ ok none → ⊥
      no_entry e = cc
