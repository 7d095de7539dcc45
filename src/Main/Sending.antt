-- ===== src/Main/Sending.antt =====
-- The responses of server/main.c can all be sent.
use pal_ft.Base.{
  ℕ, ◌≤◌, ◌<◌, ◌≡◌, refl, ap, true, List, [], ◌∷◌, ◌++◌, ◌+◌, ◌^◌, arith, length, length-append,
  Outcome, ok,
}
use pal_ft.HttpServer.{Response, rounds, headers_text, httpserver_send_response}
use pal_ft.HttpServer.Length.{
  IsSendable, length-head_text, status_text-length, send_response-length,
}
use pal_ft.Libc.{Bytes, codes}
use pal_ft.Main.{
  Row, Reply, tuples, command, Env, Server, cors, plain, json, send, with_connection, with_tuples,
  with_command,
}

pub plain-IsSendable : (status : ℕ) → 100 ≤ status → status < 1000 → IsSendable (plain status)
unfolding plain rounds headers_text
plain-IsSendable status low high = record {
  low = low;
  high = high;
  headers = omega arith;
  body = tt;
  counted = omega (arith, length-head_text (plain status) low high, status_text-length status high);
}

pub json-IsSendable :
    (status : ℕ) (body content_length : Bytes) (n : ℕ)
    → 100 ≤ status
    → status < 1000
    → n ≡ length body
    → length content_length + length body < 2 ^ 30
    → IsSendable (json status body content_length n)
unfolding json rounds headers_text
json-IsSendable status body content_length n low high same small = record {
  low = low;
  high = high;
  headers = omega arith;
  body = (omega (arith, same), λ e. omega (arith, same, e));
  counted = omega (
    arith,
    same,
    small,
    length-head_text (json status body content_length n) low high,
    status_text-length status high,
    length-append content_length (codes "\r\n" ++ headers_text (cors ∷ [])),
  );
}

-- Sending a response that has bytes returns, and only adds them.
pub send_lem :
    {D : Type 0} (s : Server D) (r : Response) (bytes : Bytes)
    → httpserver_send_response r ≡ ok bytes
    → send s r ≡ ok (record s { sent = s.sent ++ bytes ∷ [] })
unfolding send
send_lem s r bytes e = rw e

-- The code returns, and all that it did is to send this response.
abbrev pub Answered : {D : Type 0} → Server D → Response → Outcome (Server D) → Type 0
Answered s r out =
    (bytes : Bytes) × (httpserver_send_response r ≡ ok bytes)
    × (out ≡ ok (record s { sent = s.sent ++ bytes ∷ [] }))

pub send-Answered :
    {D : Type 0} (s : Server D) (r : Response) → IsSendable r → Answered s r (send s r)
send-Answered s r h = let t = send_response-length r h in (t.0, t.1, send_lem s r t.0 t.1)

pub plain-Answered :
    {D : Type 0} (s : Server D) (status : ℕ)
    → 100 ≤ status
    → status < 1000
    → Answered s (plain status) (send s (plain status))
plain-Answered s status low high = send-Answered s (plain status) (plain-IsSendable status low high)

-- A response with no body has bytes, and so has one with a body that is not too long.
pub plain_bytes :
    (status : ℕ)
    → 100 ≤ status
    → status < 1000
    → (bytes : Bytes) × (httpserver_send_response (plain status) ≡ ok bytes)
plain_bytes status low high =
    let t = send_response-length (plain status) (plain-IsSendable status low high) in (t.0, t.1)

pub json_bytes :
    (body content_length : Bytes)
    → length content_length + length body < 2 ^ 30
    → (bytes : Bytes) × (httpserver_send_response (json 200 body content_length (length body))
        ≡ ok bytes)
json_bytes body content_length small =
    let t =
      send_response-length (json 200 body content_length (length body))
        (json-IsSendable 200 body content_length _ (omega arith) (omega arith) refl small) in
    (t.0, t.1)

-- The database is up, and answers.
module _ {D : Type 0} (env : Env D) (s : Server D) where
  pub with_connection_up :
      (d : D) (k : Server D → Outcome (Server D))
      → env.connect s.world ≡ (true, d)
      → with_connection env s k ≡ k (record s { world = d })
  unfolding with_connection
  with_connection_up d k e = rw e

  pub with_tuples_rows :
      (d : D) (sql : Bytes) (rows : List Row) (k : Server D → List Row → Outcome (Server D))
      → env.exec sql s.world ≡ (tuples rows, d)
      → with_tuples env s sql k ≡ k (record s { world = d }) rows
  unfolding with_tuples
  with_tuples_rows d sql rows k e =
      rw (e, with_tuples) (ap (λ (r : Reply × D). k (record s { world = r.1 }) rows) e)

  pub with_command_done :
      (d : D) (sql : Bytes) (k : Server D → Outcome (Server D))
      → env.exec sql s.world ≡ (command, d)
      → with_command env s sql k ≡ k (record s { world = d })
  unfolding with_command
  with_command_done d sql k e =
      rw (e, with_command) (ap (λ (r : Reply × D). k (record s { world = r.1 })) e)
