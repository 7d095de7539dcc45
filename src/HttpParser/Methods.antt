-- ===== src/HttpParser/Methods.antt =====
-- The methods that server/libs/httpparser.c takes: the name has to be known, and to fit the array of
-- the request with its terminator.
use pal_ft.Base.{
  ℕ, ◌+◌, ◌-◌, ◌≤◌, ◌≡◌, refl, sym, ap, ◌∙◌, none, List, [], ◌∷◌, ◌++◌, map, append_assoc, arith,
  length, length-append, Bool-cases, inl, inr, Bool, true, false, ◌&&◌, fault, ltb, ok,
  if◌then◌else◌,
}
use pal_ft.HttpParser.{
  slice, copy, check_method, parse_line, httpparser_init_request, httpparser_parse_request,
}
use pal_ft.HttpParser.Headers.{nonzero}
use pal_ft.HttpParser.Text.{
  request_line, request_text, header_line, ArePlain, Without-NoZero, c_text-NoZero,
  header_lines-AreLines, slice-append,
}
use pal_ft.HttpServer.{Header}
use pal_ft.Libc.{Bytes, codes}
use pal_ft.Libtstr.Finds.{Without}
use pal_ft.Libtstr.Finds.Blank.{lines, crlf}
use pal_ft.HttpParser.Head.{IsWord, find_head, request_line-AreLines, find_method}

not_known : (known fits : Bool) → fits ≡ true → (known && fits) ≡ false → known ≡ false
not_known false fits h e = refl
not_known true fits h e = sym h ∙ e

parse_line_rejected :
    (m b : Bytes)
    → IsWord m
    → (check_method m && ltb (length m) 7) ≡ false
    → parse_line (m ++ (32 ∷ b)) ≡ (if ltb (length m) 7 then ok none else fault)
unfolding parse_line copy
parse_line_rejected m b is unknown =
    let whole : length m ≡ 0 + length m = omega arith in
    let bytes : slice (m ++ (32 ∷ b)) 0 (length m) ≡ ok m =
      ap (slice (m ++ (32 ∷ b)) 0) whole ∙ slice-append [] m (32 ∷ b) in
    let plain : length m - 0 ≡ length m = omega arith in
    elim (Bool-cases (ltb (length m) 7)) [
      | inl fits ↦
          let other : check_method m ≡ false =
            not_known (check_method m) (ltb (length m) 7) fits unknown in
          rw
            (
              find_method m b is,
              nonzero (length m) is.2,
              bytes,
              plain,
              fits,
              c_text-NoZero m (Without-NoZero 32 m is.0),
              other,
            )
            refl
      | inr large ↦ rw (find_method m b is, nonzero (length m) is.2, bytes, plain, large) refl
    ]

-- A request of the same form, whose method is some bytes with no space, CR or zero byte, but not a
-- known method of up to 6 bytes, is refused if the method has up to 6 bytes, and writes past its
-- array if it has more, as OPTIONS and CONNECT do.
pub httpparser_parse_request-method :
    (m p : Bytes) (hs : List Header) (rest : Bytes) (max received : ℕ)
    → Without 32 m
    → Without 13 m
    → 1 ≤ length m
    → Without 13 p
    → ArePlain hs
    → (check_method m && ltb (length m) 7) ≡ false
    → httpparser_parse_request (httpparser_init_request max) (request_text m p hs rest) received
      ≡ (if ltb (length m) 7 then ok none else fault)
unfolding httpparser_parse_request
httpparser_parse_request-method m p hs rest max received word line some_method one_line plain
      unknown =
    let ls = map header_line hs in
    let is : IsWord m = (word, line, some_method) in
    let blank =
      find_head (request_line m p) ls rest
        (request_line-AreLines m p ls is one_line (header_lines-AreLines hs plain)) in
    let size : length (request_line m p) ≡ length m + 1 + length p + 9 =
      simp length-append (omega arith) in
    let rejected =
      parse_line_rejected m (p ++ (codes " HTTP/1.1" ++ (crlf ++ (lines ls ++ (crlf ++ rest))))) is
        unknown in
    let by_line : request_text m p hs rest
        ≡ m ++ (32 ∷ (p ++ (codes " HTTP/1.1" ++ (crlf ++ (lines ls ++ (crlf ++ rest)))))) =
      simp append_assoc in
    let start = ap parse_line by_line ∙ rejected in
    elim (Bool-cases (ltb (length m) 7)) [
      | inl fits ↦
          rw
            (
              blank,
              nonzero (length (request_line m p) + length (lines ls)) (omega (arith, size)),
              start,
              fits,
            )
            refl
      | inr large ↦
          rw
            (
              blank,
              nonzero (length (request_line m p) + length (lines ls)) (omega (arith, size)),
              start,
              large,
            )
            refl
    ]
