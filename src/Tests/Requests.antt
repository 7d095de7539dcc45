-- ===== src/Tests/Requests.antt =====
-- server/libs/httpparser.c and the searches of server/libs/libtstr.c on concrete requests.
use pal_ft.Base.{
  map, List, ◌+◌, ◌≡◌, ltb, ◌&&◌, refl, true, false, none, some, [], ◌∷◌, ◌++◌, arith, length,
  replicate, ok, fault, ◌>>=◌,
}
use pal_ft.HttpParser.{
  Request, httpparser_init_request, httpparser_parse_request, httpparser_get_header, parse_line,
  parse_header, parse_headers, parse_body, parse_chunk, chunk_bytes, finish_request, copy, slice,
  c_text, to_lower, to_lower_case, check_method,
}
use pal_ft.HttpParser.Accepted.{IsAccepted, httpparser_parse_request-IsAccepted}
use pal_ft.HttpParser.Methods.{httpparser_parse_request-method}
use pal_ft.HttpParser.RoundTrip.{
  httpparser_parse_request-text, httpparser_parse_request-body, headed,
}
use pal_ft.HttpParser.Headers.{lowered}
use pal_ft.HttpParser.Text.{announced, ArePlain, request_text, IsPlain}
use pal_ft.HttpServer.{Header}
use pal_ft.Libc.{pos, Bytes, codes, str_eq, atoi, hex_long, read_hex, hex_digit, skip_0x}
use pal_ft.Libtstr.{
  tstr_find_between, tstr_find_amount, find_loop, find_end, find_char, seek_char, match_char,
  scan_char, pattern_at, find_amount,
}

-- All that a parse computes with.
unfoldable pub parser : Unit {0}
unfolding httpparser_init_request httpparser_parse_request httpparser_get_header parse_line
    parse_header parse_headers parse_body parse_chunk chunk_bytes finish_request copy slice c_text
    to_lower to_lower_case check_method str_eq atoi hex_long read_hex hex_digit skip_0x
    tstr_find_between tstr_find_amount find_loop find_end find_char seek_char match_char scan_char
    pattern_at find_amount
parser = tt

-- A part of the end pattern before it hides it: the search goes past it.
search_skips :
    tstr_find_between (codes "ab\r\r\ncd\r\n" ++ (0 ∷ [])) none 0 (some (codes "\r\n")) 0
    ≡ ok (record { start = 0; stop = 7 })
unfolding parser
search_skips = refl

amount : tstr_find_amount (codes "a--b--c" ++ (0 ∷ [])) (codes "--") ≡ ok 2
unfolding parser
amount = refl

no_match : ¬ (false ≡ true)
no_match e = cc

abbrev pub host : Header
host = (codes "Host", codes "x.y")

pub host-IsPlain : IsPlain host
unfolding parser
host-IsPlain = record {
  key_text = ground arith;
  key_line = ground arith;
  value_line = ground arith;
  key_some = omega arith;
  key_fits = omega arith;
  value_fits = omega arith;
  number = λ e. absurd (no_match e);
  no_encoding = refl;
}

pub host_bodiless : announced (pos 0) (host ∷ []) ≡ pos 0
unfolding parser
host_bodiless = refl

pub get_known : check_method (codes "GET") ≡ true
unfolding parser
get_known = refl

options_refused : (check_method (codes "OPTIONS") && ltb 7 7) ≡ false
unfolding parser
options_refused = refl

abbrev pub got : Request
got = record {
  method = codes "GET";
  path = some (codes "/api/login");
  version = codes "1.1";
  headers = (codes "host", codes "x.y") ∷ [];
  headers_max_length = 30;
  body = none;
  chunk_length = none;
  finished = none;
}

abbrev get_text : Bytes
get_text = request_text (codes "GET") (codes "/api/login") (host ∷ []) (0 ∷ [])

httpparser_parse_request-text_example :
    httpparser_parse_request (httpparser_init_request 30) get_text 46 ≡ ok (some got)
unfolding to_lower_case to_lower
httpparser_parse_request-text_example =
    httpparser_parse_request-text (codes "GET") (codes "/api/login") (host ∷ []) (0 ∷ []) 30 46
      get_known (omega arith) (ground arith) (ground arith) (host-IsPlain, tt) (omega arith)
      host_bodiless

httpparser_parse_request-method_example :
    httpparser_parse_request
      (httpparser_init_request 30)
      (request_text (codes "OPTIONS") (codes "/") [] [])
      22
    ≡ fault
httpparser_parse_request-method_example =
    httpparser_parse_request-method (codes "OPTIONS") (codes "/") [] [] 30 22 (ground arith)
      (ground arith) (omega arith) (ground arith) tt options_refused

got_runs : httpparser_parse_request (httpparser_init_request 30) get_text 46 ≡ ok (some got)
unfolding parser
got_runs = refl

httpparser_parse_request-IsAccepted_example : IsAccepted 30 got
unfolding httpparser_init_request
httpparser_parse_request-IsAccepted_example =
    httpparser_parse_request-IsAccepted (httpparser_init_request 30) got get_text 46 got_runs

-- A body in one piece.
abbrev post_text : Bytes
post_text = codes "POST / HTTP/1.1\r\nContent-Type: a\r\nContent-Length: 3\r\n\r\nxyz"

post_body :
    (httpparser_parse_request
        (httpparser_init_request 30)
        (post_text ++ (0 ∷ []))
        (length post_text)
      >>= λ r. ok (elim r [ none ↦ none | some r ↦ r.body ]))
    ≡ ok (some (codes "xyz"))
unfolding parser
post_body = refl

-- The length has to be that of the rest.
post_rest :
    httpparser_parse_request
      (httpparser_init_request 30)
      (post_text ++ (0 ∷ []))
      (length post_text + 1)
    ≡ ok none
unfolding parser
post_rest = refl

-- A body in chunks; more bytes than were received count, here those behind the chunk.
abbrev chunk_text : Bytes
chunk_text =
    codes "POST / HTTP/1.1\r\nContent-Type: a\r\nTransfer-Encoding: chunked\r\n\r\n5\r\nhel"

chunk_body :
    (httpparser_parse_request
        (httpparser_init_request 30)
        (chunk_text ++ (codes "STALE" ++ replicate 90 0))
        (length chunk_text)
      >>= λ r. ok (elim r [ none ↦ none | some r ↦ r.body ]))
    ≡ ok (some (codes "helST"))
unfolding parser
chunk_body = refl

abbrev post_headers : List Header
post_headers = (codes "Content-Type", codes "a") ∷ (codes "Content-Length", codes "3") ∷ []

post_plain : ArePlain post_headers
unfolding parser
post_plain = (
  record {
    key_text = ground arith;
    key_line = ground arith;
    value_line = ground arith;
    key_some = omega arith;
    key_fits = omega arith;
    value_fits = omega arith;
    number = λ e. absurd (no_match e);
    no_encoding = refl;
  },
  (
    record {
      key_text = ground arith;
      key_line = ground arith;
      value_line = ground arith;
      key_some = omega arith;
      key_fits = omega arith;
      value_fits = omega arith;
      number = λ e. (ground arith, omega arith);
      no_encoding = refl;
    },
    tt,
  ),
)

post_known : check_method (codes "POST") ≡ true
unfolding parser
post_known = refl

post_length : announced (pos 0) post_headers ≡ pos 3
unfolding parser
post_length = refl

post_type :
    httpparser_get_header (map lowered post_headers) (codes "content-type") ≡ some (codes "a")
unfolding parser
post_type = refl

httpparser_parse_request-body_example :
    httpparser_parse_request
      (httpparser_init_request 30)
      (request_text (codes "POST") (codes "/") post_headers (codes "xyz" ++ (0 ∷ [])))
      58
    ≡ ok (
        some (record (headed (codes "POST") (codes "/") post_headers 30) {
          body = some (codes "xyz");
          finished = some true;
        }))
httpparser_parse_request-body_example =
    httpparser_parse_request-body (codes "POST") (codes "/") post_headers (codes "xyz") (0 ∷ [])
      (codes "a") 30 58 post_known (omega arith) (ground arith) (ground arith) post_plain
      (omega arith) post_length (omega arith) post_type
