-- ===== src/HttpServer.antt =====
-- server/libs/httpserver.c: what `httpserver_send_response` hands to `csocket_server_send`. The
-- connections are in the children Connections and Listen.
pub mod Status
pub mod Length
pub mod Connections
pub mod Listen
pub mod Sockets
use pal_ft.Base.{
  ℕ, zero, suc, ◌+◌, Bool, true, false, Option, none, some, List, [], ◌∷◌, ◌++◌, leb, ◌==◌, ◌&&◌,
  if◌then◌else◌, length, take, Outcome, ok, fault, ◌>>=◌,
}
use pal_ft.HttpServer.Status.{status_text}
use pal_ft.Libc.{Bytes, codes, ℤ, pos, negsuc, wrap_int, add_int, snprintf, decimal}

-- struct httpserver_header
abbrev pub Header : Type 0
Header = Bytes × Bytes

-- struct httpserver_response, without the client and the field that nothing reads. The lengths are
-- an `int`; the status is one too, and every response of the program gives it three digits.
pub record Response : Type 0 where
  pub status : ℕ
  pub headers : List Header
  pub headers_length : ℤ
  pub body : Option Bytes
  pub body_length : ℤ

-- How often a loop from 0 to below an `int` runs.
unfoldable pub rounds : ℤ → ℕ
rounds (pos n) = n
rounds (negsuc n) = 0

-- `(int)strlen(text)`
unfoldable pub int_length : Bytes → ℤ
int_length text = wrap_int (length text)

-- The rounds of the loop over the headers, from the length before them.
unfoldable pub add_headers : ℤ → List Header → Outcome ℤ
add_headers n [] = ok n
add_headers n ((key, value) ∷ hs) = do
  with_key ← add_int n (int_length key)
  with_value ← add_int with_key (int_length value)
  with_ends ← add_int with_value (pos 4)
  add_headers with_ends hs

-- `_calculate_response_length`; `sizeof("HTTP/1.1 ")` counts the terminator.
unfoldable pub calculate_response_length : Response → Outcome ℤ
calculate_response_length r = do
  with_status ← add_int (pos (10 + 3)) (int_length (status_text r.status))
  first_line ← add_int with_status (pos 2)
  with_headers ← add_headers first_line (take (rounds r.headers_length) r.headers)
  head ← add_int with_headers (pos 2)
  elim r.body [ none ↦ ok head | some _ ↦ add_int head r.body_length ]

-- `tstr_append` of server/libs/libtstr.c: the bytes that it adds. A limit of 0 is none, and below 0
-- nothing is added; a limit past the end of the text reads outside it.
unfoldable pub tstr_append : Bytes → ℤ → Outcome Bytes
tstr_append text (pos n) =
    if n == 0 then ok text else if leb n (length text) then ok (take n text) else fault
tstr_append text (negsuc n) = ok []

unfoldable pub headers_text : List Header → Bytes
headers_text [] = []
headers_text ((key, value) ∷ hs) =
    key ++ (codes ": " ++ (value ++ (codes "\r\n" ++ headers_text hs)))

unfoldable pub body_text : Response → Outcome Bytes
body_text r = elim r.body [ none ↦ ok [] | some body ↦ tstr_append body r.body_length ]

-- The bytes that are appended, in the order of the calls. `status_text` is a buffer of 4 bytes.
unfoldable pub head_text : Response → Bytes
head_text r =
    codes "HTTP/1.1 "
    ++ (snprintf 4 (decimal r.status)
        ++ (codes " "
            ++ (status_text r.status
                ++ (codes "\r\n"
                    ++ (headers_text (take (rounds r.headers_length) r.headers) ++ codes "\r\n")))))

-- A negative size is too large for `malloc`, and the first write then goes through NULL.
unfoldable pub has_size : ℤ → Bytes → Bool
has_size (pos n) text = length text == n
has_size (negsuc n) text = false

-- The buffer has the calculated size. To write past it is a fault, and so it is to send bytes of it
-- that were never written, or to read past the array of headers.
unfoldable pub httpserver_send_response : Response → Outcome Bytes
httpserver_send_response r = do
  size ← calculate_response_length r
  body ← body_text r
  let text = head_text r ++ body
  if leb (rounds r.headers_length) (length r.headers) && has_size size text then ok text else fault
