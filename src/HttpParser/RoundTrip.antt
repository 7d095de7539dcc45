-- ===== src/HttpParser/RoundTrip.antt =====
-- The text of a request is parsed by server/libs/httpparser.c into its parts.
use pal_ft.Base.{
  Bool-cases, inl, inr, ◌==◌, if◌then◌else◌, ℕ, ◌+◌, ◌≤◌, ◌<◌, ◌≡◌, refl, sym, ap, ◌∙◌, none, some,
  List, [], ◌∷◌, ◌++◌, map, append_assoc, arith, length, length-append, true, ok,
}
use pal_ft.HttpParser.{
  Request, check_method, methods, parse_line, httpparser_get_header, finish_request,
  httpparser_init_request, httpparser_parse_request,
}
use pal_ft.HttpParser.Headers.{lowered, nonzero, parse_headers_lem}
use pal_ft.HttpParser.Text.{
  request_line, request_text, header_line, ArePlain, header_lines-AreLines,
}
use pal_ft.HttpParser.Head.{methods_words, among-IsWord, find_head, request_line-AreLines}
use pal_ft.HttpParser.{slice, parse_body}
use pal_ft.HttpParser.Text.{announced, slice-append}
use pal_ft.HttpParser.RequestLine.{text, front, parse_line_lem}
use pal_ft.HttpServer.{Header}
use pal_ft.Libc.{Bytes, codes, pos}
use pal_ft.Libtstr.Finds.{Without}
use pal_ft.Libtstr.Finds.Blank.{lines, crlf}

get_header-lowered :
    (hs : List Header)
    → ArePlain hs
    → httpparser_get_header (map lowered hs) (codes "transfer-encoding") ≡ none
unfolding httpparser_get_header
get_header-lowered [] h = refl
get_header-lowered ((key, value) ∷ hs) (p, ps) = rw (p.no_encoding, get_header-lowered hs ps) refl

-- A request that was parsed up to its blank line.
abbrev pub headed : Bytes → Bytes → List Header → ℕ → Request
headed m p hs max = record {
  method = m;
  path = some p;
  version = codes "1.1";
  headers = map lowered hs;
  headers_max_length = max;
  body = none;
  chunk_length = none;
  finished = none;
}

-- Where the blank line begins.
abbrev head_end : Bytes → Bytes → List Header → ℕ
head_end m p hs = length (request_line m p) + length (lines (map header_line hs))

parse_head :
    (m p : Bytes) (hs : List Header) (rest : Bytes) (max received : ℕ)
    → check_method m ≡ true
    → length m < 7
    → Without 32 p
    → Without 13 p
    → ArePlain hs
    → length hs ≤ max
    → httpparser_parse_request (httpparser_init_request max) (request_text m p hs rest) received
      ≡ finish_request
          (headed m p hs max)
          (request_text m p hs rest)
          received
          (head_end m p hs)
          (announced (pos 0) hs)
unfolding httpparser_parse_request httpparser_init_request
parse_head m p hs rest max received known fits word one_line plain room =
    let ls = map header_line hs in
    let b = lines ls ++ (crlf ++ rest) in
    let is = among-IsWord m methods methods_words (unfold check_method in known) in
    let blank =
      find_head (request_line m p) ls rest
        (request_line-AreLines m p ls is one_line (header_lines-AreLines hs plain)) in
    let by_line : request_text m p hs rest ≡ text m p b known fits word = simp append_assoc in
    let line = ap parse_line by_line ∙ parse_line_lem m p b known fits word in
    let size : length (request_line m p) ≡ length (front m p b known fits word) + 3 =
      simp length-append (omega arith) in
    let headers =
      parse_headers_lem hs (request_text m p hs rest) (request_line m p) rest
        (length (request_line m p) + length (lines ls)) max
        (length (front m p b known fits word) + 3) [] (pos 0) plain room
        (append_assoc (request_line m p) (crlf ++ lines ls) (crlf ++ rest)) (sym size) refl in
    rw
      (
        blank,
        nonzero (length (request_line m p) + length (lines ls)) (omega (arith, size)),
        line,
        headers,
      )
      refl

finish_request-plain :
    (r : Request) (buffer : Bytes) (received head : ℕ)
    → httpparser_get_header r.headers (codes "transfer-encoding") ≡ none
    → finish_request r buffer received head (pos 0) ≡ ok (some r)
unfolding finish_request
finish_request-plain r buffer received head e = rw (e, finish_request) refl

finish_request-body :
    (r : Request) (buffer body typed : Bytes) (received head : ℕ)
    → httpparser_get_header r.headers (codes "transfer-encoding") ≡ none
    → httpparser_get_header r.headers (codes "content-type") ≡ some typed
    → 1 ≤ length body
    → slice buffer (head + 4) (head + 4 + length body) ≡ ok body
    → finish_request r buffer received head (pos (length body)) ≡ (
        if received == head + 4 + length body
        then ok (some (record r { body = some body; finished = some true }))
        else ok none)
unfolding finish_request parse_body
finish_request-body r buffer body typed received head e t some_body bytes =
    elim (Bool-cases (received == head + 4 + length body)) [
      | inl all ↦
          rw (finish_request, e, t, nonzero (length body) some_body, parse_body, all, bytes) refl
      | inr other ↦
          rw (finish_request, e, t, nonzero (length body) some_body, parse_body, other) refl
    ]

-- A request with a known method of up to 6 bytes, a path with no space, CR or zero byte, and at
-- most as many headers as there is room for, each of which fits and which announce no body,
-- neither a length but 0 nor an encoding, is parsed into its method, its path, the version 1.1 and
-- its headers with their keys in lower case, whatever stands behind it in the buffer.
pub httpparser_parse_request-text :
    (m p : Bytes) (hs : List Header) (rest : Bytes) (max received : ℕ)
    → check_method m ≡ true
    → length m < 7
    → Without 32 p
    → Without 13 p
    → ArePlain hs
    → length hs ≤ max
    → announced (pos 0) hs ≡ pos 0
    → httpparser_parse_request (httpparser_init_request max) (request_text m p hs rest) received
      ≡ ok (some (headed m p hs max))
httpparser_parse_request-text m p hs rest max received known fits word one_line plain room
      none_announced =
    parse_head m p hs rest max received known fits word one_line plain room
    ∙ ap (finish_request (headed m p hs max) (request_text m p hs rest) received (head_end m p hs))
        none_announced
    ∙ finish_request-plain (headed m p hs max) (request_text m p hs rest) received (head_end m p hs)
        (get_header-lowered hs plain)

-- The body stands behind the blank line.
body_slice :
    (m p : Bytes) (hs : List Header) (body rest : Bytes)
    → slice
        (request_text m p hs (body ++ rest))
        (head_end m p hs + 4)
        (head_end m p hs + 4 + length body)
      ≡ ok body
body_slice m p hs body rest =
    let front : Bytes = lines (request_line m p ∷ map header_line hs) ++ crlf in
    let split : request_text m p hs (body ++ rest) ≡ front ++ (body ++ rest) =
      sym (append_assoc (lines (request_line m p ∷ map header_line hs)) crlf (body ++ rest)) in
    let size : head_end m p hs + 4 ≡ length front = simp length-append (omega arith) in
    ap (λ t. slice t (head_end m p hs + 4) (head_end m p hs + 4 + length body)) split
    ∙ ap (λ n. slice (front ++ (body ++ rest)) n (n + length body)) size
    ∙ slice-append front body rest

-- A request of the same form, whose headers announce the length of its body, which is not empty,
-- and give a content type, is parsed into the same parts and the body, whatever stands behind it
-- in the buffer, if what was received is just the request; if less or more was received, it is
-- refused.
pub httpparser_parse_request-body :
    (m p : Bytes) (hs : List Header) (body rest typed : Bytes) (max received : ℕ)
    → check_method m ≡ true
    → length m < 7
    → Without 32 p
    → Without 13 p
    → ArePlain hs
    → length hs ≤ max
    → announced (pos 0) hs ≡ pos (length body)
    → 1 ≤ length body
    → httpparser_get_header (map lowered hs) (codes "content-type") ≡ some typed
    → httpparser_parse_request
        (httpparser_init_request max)
        (request_text m p hs (body ++ rest))
        received
      ≡ (if received == length (request_text m p hs body)
          then ok (some (record (headed m p hs max) { body = some body; finished = some true }))
          else ok none)
httpparser_parse_request-body m p hs body rest typed max received known fits word one_line plain
      room length_is some_body type =
    let size : head_end m p hs + 4 + length body ≡ length (request_text m p hs body) =
      simp length-append (omega arith) in
    parse_head m p hs (body ++ rest) max received known fits word one_line plain room
    ∙ ap
        (finish_request (headed m p hs max) (request_text m p hs (body ++ rest)) received
          (head_end m p hs))
        length_is
    ∙ finish_request-body (headed m p hs max) (request_text m p hs (body ++ rest)) body typed
        received (head_end m p hs) (get_header-lowered hs plain) type some_body
        (body_slice m p hs body rest)
    ∙ ap
        (λ n.
          if received == n
          then ok (some (record (headed m p hs max) { body = some body; finished = some true }))
          else ok none)
        size
