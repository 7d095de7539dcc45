-- ===== src/HttpParser.antt =====
-- server/libs/httpparser.c: the parser of a request. The request stands at the front of the buffer
-- that it was received into, whose other bytes the searches may reach; a read past the buffer, and a
-- write past an array of the request, is a fault, as is a length below 0 where `memcpy` takes it.
-- `some` is the return value 0, `none` is -1. The fields that only the success of the parser makes
-- known are filled in at the end; `body_length` is the length of the body.
mod Parts
pub mod Text
pub mod Headers
pub mod Head
pub mod Methods
pub mod Accepted
pub mod RequestLine
pub mod RoundTrip
unfoldable pub use Parts.*
use pal_ft.Base.{
  ℕ, zero, suc, ◌+◌, ◌-◌, Option, none, some, Bool, true, false, not, ◌||◌, List, [], ◌∷◌, ◌++◌,
  ltb, ◌==◌, if◌then◌else◌, length, Outcome, ok, fault, ◌>>=◌,
}
use pal_ft.HttpServer.{Header}
use pal_ft.Libc.{Bytes, codes, str_eq, ℤ, pos, negsuc, atoi, hex_long}
use pal_ft.Libtstr.{Token}

-- The request line: the method, the path, the version and where the line ends.
pub record Line : Type 0 where
  pub method : Bytes
  pub path : Bytes
  pub version : Bytes
  pub stop : ℕ

unfoldable pub parse_line : Bytes → Outcome (Option Line)
parse_line buffer = do
  method_token ← find buffer 0 (codes " ") 0
  if method_token.stop == 0 then ok none else (do
    method ← copy 7 buffer 0 method_token.stop
    if not (check_method method) then ok none else (do
      path_token ← find buffer (method_token.stop + 1) (codes " ") 0
      if path_token.stop == 0 then ok none else (do
        path ← copy (path_token.stop - path_token.start + 1) buffer path_token.start path_token.stop
        version_token ← find buffer (path_token.stop + 1 + 5) line_end 0
        if version_token.stop == 0 then ok none else (do
          version ← copy 4 buffer version_token.start version_token.stop
          if not (str_eq version (codes "1.1"))
              then ok none
              else ok (
                  some (record {
                    method = method;
                    path = path;
                    version = version;
                    stop = version_token.stop;
                  }))))))

-- One header, from the end of the last line: its key and value, the content length after it, and
-- the end of its line.
unfoldable pub parse_header : Bytes → Token → Token → ℤ → Outcome (Header × ℤ)
parse_header buffer header name content_length = do
  key ← copy 64 buffer name.start name.stop
  value ← copy 1024 buffer (name.stop + 2) header.stop
  if str_eq (to_lower_case key) (codes "content-length")
      then (do
        text ← slice buffer (header.start + 16) (length buffer)
        ok ((to_lower_case key, value), atoi (c_text text)))
      else ok ((to_lower_case key, value), content_length)

-- The loop over the headers, with `room` of them free.
unfoldable pub parse_headers :
    Bytes → ℕ → ℕ → ℕ → List Header → ℤ → Outcome (Option (List Header × ℤ))
parse_headers buffer stop zero last headers content_length =
    if last == stop then ok (some (headers, content_length)) else (do
      header ← find buffer (last + 2) line_end 0
      name ← find buffer header.start (codes ": ") header.stop
      ok none)
parse_headers buffer stop (suc room) last headers content_length =
    let more : Outcome (Option (List Header × ℤ)) = (do
      header ← find buffer (last + 2) line_end 0
      name ← find buffer header.start (codes ": ") header.stop
      if name.start == 0 || name.stop == 0 then ok none else (do
        (parsed, content_length') ← parse_header buffer header name content_length
        parse_headers buffer stop room header.stop (headers ++ parsed ∷ []) content_length')) in
    if last == stop then ok (some (headers, content_length)) else more

-- A body in one piece: the rest of what was received has to be just as long.
unfoldable pub parse_body : Bytes → ℕ → ℕ → ℤ → Outcome (Option Bytes)
parse_body buffer received head (pos n) =
    if received == head + 4 + n
    then (do body ← slice buffer (head + 4) (head + 4 + n); ok (some body))
    else ok none
parse_body buffer received head (negsuc n) = if received + n + 1 == head + 4 then fault else ok none

-- The first chunk of a body; `requested_length` is cut to the chunk's length.
unfoldable pub chunk_bytes : Bytes → ℕ → ℕ → ℕ → ℤ → Outcome Bytes
chunk_bytes text received head from (negsuc n) = fault
chunk_bytes text received head from (pos n) =
    if ltb (received + head) (4 + from)
    then fault
    else slice text from
        (from + (if ltb n (received + head - (4 + from)) then n else received + head - (4 + from)))

unfoldable pub parse_chunk : Bytes → ℕ → ℕ → Outcome (Option (Bytes × ℤ))
parse_chunk buffer received head = do
  text ← slice buffer (head + 4) (length buffer)
  chunk_size ← find text 0 line_end 0
  if chunk_size.stop == 0 then ok none else (do
    size ← copy 5 text 0 chunk_size.stop
    chunk ← chunk_bytes text received head (chunk_size.stop + 2) (hex_long size)
    ok (some (chunk, hex_long size)))

abbrev int_eq : ℤ → ℕ → Bool
int_eq (pos n) m = n == m
int_eq (negsuc n) m = false

abbrev positive : ℤ → Bool
positive (pos n) = not (n == 0)
positive (negsuc n) = false

-- What follows the headers: the request with a body, with its first chunk, or with neither.
unfoldable pub finish_request : Request → Bytes → ℕ → ℕ → ℤ → Outcome (Option Request)
finish_request r buffer received head content_length =
    let encoding = httpparser_get_header r.headers (codes "transfer-encoding") in
    let typed = httpparser_get_header r.headers (codes "content-type") in
    let whole : Outcome (Option Request) = (do
      body ← parse_body buffer received head content_length
      elim body [
        | none ↦ ok none
        | some bytes ↦ ok (some (record r { body = some bytes; finished = some true }))
      ]) in
    let chunked : Outcome (Option Request) = (do
      chunk ← parse_chunk buffer received head
      elim chunk [
        | none ↦ ok none
        | some (bytes, size) ↦ ok (
            some (record r {
              body = some bytes;
              chunk_length = some size;
              finished = some (int_eq size (length bytes));
            }))
      ]) in
    elim encoding [
      | none ↦
          if not (positive content_length)
          then ok (some r)
          else (elim typed [ none ↦ ok none | some _ ↦ whole ])
      | some coding ↦ elim typed [
        | none ↦ ok none
        | some _ ↦ if str_eq coding (codes "chunked") then chunked else whole
      ]
    ]

-- The parser, for a request that `httpparser_init_request` has just set up.
unfoldable pub httpparser_parse_request : Request → Bytes → ℕ → Outcome (Option Request)
httpparser_parse_request r buffer received = do
  head ← find buffer 0 blank_line 0
  if head.stop == 0 then ok none else (do
    line ← parse_line buffer
    elim line [
      | none ↦ ok none
      | some l ↦ do
        headers ← parse_headers buffer head.stop r.headers_max_length l.stop [] (pos 0)
        elim headers [
          | none ↦ ok none
          | some (hs, content_length) ↦
              finish_request
                (record r {
                  method = l.method;
                  path = some l.path;
                  version = l.version;
                  headers = hs;
                })
                buffer received head.stop content_length
        ]
    ])
