-- ===== src/HttpServer/Length.antt =====
-- The calculated length of a response in server/libs/httpserver.c against the bytes that
-- `httpserver_send_response` writes.
use pal_ft.Base.{
  ℕ, ◌+◌, ◌^◌, ◌≤◌, ◌<◌, ◌≡◌, refl, ◌∙◌, true, ◌||◌, Option, none, some, List, [], ◌∷◌, ◌++◌, arith,
  ltb, ◌==◌, length, length-append, length-take, take, le→leb, leb→le, lt→ltb, leb, ap, Outcome, ok,
  every_below, every_below-test, Bool-cases, inl, inr, ==_refl,
}
use pal_ft.HttpServer.{
  Header, Response, rounds, int_length, add_headers, headers_text, calculate_response_length,
  tstr_append, body_text, head_text, has_size, httpserver_send_response,
}
use pal_ft.HttpServer.Status.{status_text, select}
use pal_ft.Libc.{Bytes, ℤ, pos, negsuc, wrap_int, add_int, snprintf, decimal}

status_table : every_below (λ n. ltb n 100 || length (snprintf 4 (decimal n)) == 3) 1000 ≡ true
unfolding every_below snprintf decimal
status_table = refl

-- A status of three digits fills the buffer of four bytes.
status_digits : (n : ℕ) → 100 ≤ n → n < 1000 → length (snprintf 4 (decimal n)) ≡ 3
status_digits n low high = ground (
  arith,
  every_below-test (λ n. ltb n 100 || length (snprintf 4 (decimal n)) == 3) 1000 n high
      status_table,
)

status_text_table : every_below (λ n. leb (length (status_text n)) 40) 1000 ≡ true
unfolding every_below status_text select
status_text_table = refl

-- The text of a status is short.
pub status_text-length : (n : ℕ) → n < 1000 → length (status_text n) ≤ 40
status_text-length n high =
    leb→le _ _
      (every_below-test (λ n. leb (length (status_text n)) 40) 1000 n high status_text_table)

add_pos : (n k : ℕ) → n + k < 2 ^ 31 → add_int (pos n) (pos k) ≡ ok (pos (n + k))
unfolding add_int
add_pos n k h = rw (lt→ltb (n + k) (2 ^ 31) h) refl

int_length-pos : (text : Bytes) → length text < 2 ^ 31 → int_length text ≡ pos (length text)
unfolding int_length wrap_int
int_length-pos text h = ground arith

add_length :
    (n : ℕ) (text : Bytes)
    → n + length text < 2 ^ 31
    → add_int (pos n) (int_length text) ≡ ok (pos (n + length text))
add_length n text h = rw (int_length-pos text (omega (arith, h))) (add_pos n (length text) h)

add_headers-pos :
    (n : ℕ) (hs : List Header)
    → n + length (headers_text hs) < 2 ^ 31
    → add_headers (pos n) hs ≡ ok (pos (n + length (headers_text hs)))
unfolding add_headers headers_text
add_headers-pos n [] h = ap (λ m. ok (pos m)) (omega arith)
add_headers-pos n ((key, value) ∷ hs) h =
    let size : length (headers_text ((key, value) ∷ hs))
        ≡ length key + length value + 4 + length (headers_text hs) =
      simp length-append (omega arith) in
    let whole : n + length key + length value + 4 + length (headers_text hs) < 2 ^ 31 =
      omega (arith, h, size) in
    rw
      (
        add_length n key (omega (arith, whole)),
        add_length (n + length key) value (omega (arith, whole)),
        add_pos (n + length key + length value) 4 (omega (arith, whole)),
        add_headers-pos (n + length key + length value + 4) hs whole,
      )
      (ap (λ m. ok (pos m)) (omega (arith, size)))

-- The body's length is that of the body, or at least leaves it in bounds; 0 only for an empty one.
abbrev pub FitsBody : Option Bytes → ℤ → Type 0
FitsBody none n = Unit {0}
FitsBody (some body) (pos n) = (n ≤ length body) × (n ≡ 0 → length body ≡ 0)
FitsBody (some body) (negsuc n) = ⊥

-- The bytes of the body.
abbrev pub body_size : Option Bytes → ℤ → ℕ
body_size none n = 0
body_size (some body) n = rounds n

pub record IsSendable (r : Response) : Type 0 where
  pub low : 100 ≤ r.status
  pub high : r.status < 1000
  pub headers : rounds r.headers_length ≤ length r.headers
  pub body : FitsBody r.body r.body_length
  -- The bytes can be counted in an `int`.
  pub counted : length (head_text r) + body_size r.body r.body_length < 2 ^ 31

tstr_append-length :
    (text : Bytes) (n : ℕ)
    → FitsBody (some text) (pos n)
    → (t : Bytes) × (tstr_append text (pos n) ≡ ok t) × (length t ≡ n)
unfolding tstr_append
tstr_append-length text n fits = elim (Bool-cases (n == 0)) [
  | inl e ↦ (text, rw e, ground arith)
  | inr e ↦ (
    take n text,
    rw (e, le→leb n (length text) fits.0),
    omega (arith, length-take n text, fits.0),
  )
]

-- A whole response, by its body.
sent_size :
    (b : Option Bytes) (n : ℤ) (head : ℕ)
    → FitsBody b n
    → head + body_size b n < 2 ^ 31
    → (t : Bytes) × ((let y : Outcome Bytes = elim b [
      | none ↦ ok []
      | some body ↦ tstr_append body n
    ] in
          y)
        ≡ ok t)
      × ((let z : Outcome ℤ = elim b [ none ↦ ok (pos head) | some _ ↦ add_int (pos head) n ] in z)
          ≡ ok (pos (head + length t)))
unfolding rounds
sent_size none n head fits h = ([], refl, ap (λ m. ok (pos m)) (omega arith))
sent_size (some body) (pos n) head fits h =
    let (t, added, size) = tstr_append-length body n fits in (t, added, rw size (add_pos head n h))
sent_size (some body) (negsuc n) head fits h = absurd fits

pub length-head_text :
    (r : Response)
    → 100 ≤ r.status
    → r.status < 1000
    → length (head_text r)
      ≡ 17
        + length (status_text r.status)
        + length (headers_text (take (rounds r.headers_length) r.headers))
unfolding head_text
length-head_text r low high = simp (length-append, status_digits r.status low high) (omega arith)

-- For a status of three digits, a count of headers within the array, a body length within the body
-- that is 0 only for an empty body, and fewer than 2 ^ 31 bytes in all, sending returns, the sum
-- that gives the size of the buffer does not overflow, and it is the number of bytes that are
-- written to it.
pub send_response-length :
    (r : Response)
    → IsSendable r
    → (bytes : Bytes) × (httpserver_send_response r ≡ ok bytes)
      × (calculate_response_length r ≡ ok (pos (length bytes)))
unfolding httpserver_send_response calculate_response_length body_text has_size
send_response-length r s =
    let hs = headers_text (take (rounds r.headers_length) r.headers) in
    let head = length-head_text r s.low s.high in
    let small : 17 + length (status_text r.status) + length hs < 2 ^ 31 =
      omega (arith, head, s.counted) in
    let (t, sent, sized) =
      sent_size r.body r.body_length (10 + 3 + length (status_text r.status) + 2 + length hs + 2)
        s.body (omega (arith, head, s.counted)) in
    let size : calculate_response_length r ≡ ok (pos (length (head_text r ++ t))) =
      rw
        (
          add_length (10 + 3) (status_text r.status) (omega (arith, small)),
          add_pos (10 + 3 + length (status_text r.status)) 2 (omega (arith, small)),
          add_headers-pos (10 + 3 + length (status_text r.status) + 2)
              (take (rounds r.headers_length) r.headers) (omega (arith, small)),
          add_pos (10 + 3 + length (status_text r.status) + 2 + length hs) 2 (omega (arith, small)),
        )
        (sized ∙ ap (λ m. ok (pos m)) (omega (arith, head, length-append (head_text r) t))) in
    (head_text r ++ t, rw (size, sent, le→leb _ _ s.headers, ==_refl), size)
