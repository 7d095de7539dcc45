-- ===== src/HttpParser/Headers.antt =====
-- The loop of server/libs/httpparser.c over the headers of a request with no body.
use pal_ft.Base.{
  Bool-cases, inl, inr, length-map, if◌then◌else◌, ℕ, zero, suc, ◌+◌, ◌≤◌, ◌<◌, ◌≡◌, refl, sym, ap,
  subst, ◌∙◌, some, List, [], ◌∷◌, ◌++◌, map, append_assoc, append-nil, arith, length,
  length-append, true, false, ◌==◌, ==_refl, ok,
}
use pal_ft.HttpParser.{
  slice, c_text, to_lower, copy, find, line_end, parse_header, parse_headers, to_lower_case,
}
use pal_ft.Libc.Stops.{atoi-line}
use pal_ft.HttpParser.Text.{
  is_length, announced, c_text-append, slice-append, header_line, IsPlain, ArePlain, Without-NoZero,
  header_line-Without, copy-append,
}
use pal_ft.HttpServer.{Header}
use pal_ft.Libc.{atoi, str_eq, str_eq_iff, Bytes, codes, ℤ}
use pal_ft.Libtstr.Finds.{tstr_find_between_first}
use pal_ft.Libtstr.Finds.Blank.{lines, crlf}

-- A header as the parser stores it.
abbrev pub lowered : Header → Header
lowered (key, value) = (to_lower_case key, value)

to_lower_case-length : (s : Bytes) → length (to_lower_case s) ≡ length s
unfolding to_lower_case
to_lower_case-length s = length-map s to_lower

-- The header `h` stands in the buffer behind `a`, with `b` behind its line.
module _ (a b : Bytes) (h : Header) (p : IsPlain h) where
  abbrev around : Bytes
  around = a ++ (header_line h ++ (crlf ++ b))

  find_line :
      find around (length a) line_end 0
      ≡ ok (record { start = length a; stop = length a + length (header_line h) })
  find_line =
      tstr_find_between_first a (header_line h) b 13 (10 ∷ []) 0 (refl, (refl, tt))
        (header_line-Without h p) (omega (arith, p.key_some, length-append h.0 (codes ": " ++ h.1)))

  by_key : around ≡ a ++ (h.0 ++ (58 ∷ (32 ∷ (h.1 ++ (crlf ++ b)))))
  by_key = ap (λ t. a ++ t) (append_assoc h.0 (codes ": " ++ h.1) (crlf ++ b))

  find_key :
      (len : ℕ)
      → find around (length a) (codes ": ") len
        ≡ ok (record { start = length a; stop = length a + length h.0 })
  find_key len =
      ap (λ t. find t (length a) (codes ": ") len) by_key
      ∙ tstr_find_between_first a h.0 (h.1 ++ (crlf ++ b)) 58 (32 ∷ []) len (refl, (refl, tt))
          p.key_text (omega (arith, p.key_some))

  copy_key : copy 64 around (length a) (length a + length h.0) ≡ ok h.0
  copy_key =
      ap (λ t. copy 64 t (length a) (length a + length h.0)) by_key
      ∙ copy-append 64 a h.0 _ (Without-NoZero 58 h.0 p.key_text) p.key_fits

  by_value : around ≡ (a ++ (h.0 ++ codes ": ")) ++ (h.1 ++ (crlf ++ b))
  by_value = by_key ∙ simp append_assoc

  copy_value :
      copy 1024 around (length a + length h.0 + 2) (length a + length (header_line h)) ≡ ok h.1
  copy_value =
      ap (λ t. copy 1024 t (length a + length h.0 + 2) (length a + length (header_line h))) by_value
      ∙ ap
          (λ n.
            copy 1024 ((a ++ (h.0 ++ codes ": ")) ++ (h.1 ++ (crlf ++ b))) n
              (length a + length (header_line h)))
          (simp length-append (omega arith))
      ∙ ap
          (copy 1024 ((a ++ (h.0 ++ codes ": ")) ++ (h.1 ++ (crlf ++ b)))
            (length (a ++ (h.0 ++ codes ": "))))
          (simp length-append (omega arith))
      ∙ copy-append 1024 (a ++ (h.0 ++ codes ": ")) h.1 (crlf ++ b)
          (Without-NoZero 13 h.1 p.value_line) p.value_fits

  -- The text behind the key, which `atoi` reads for the content length.
  length_text :
      str_eq (to_lower_case h.0) (codes "content-length") ≡ true
      → slice around (length a + 16) (length around) ≡ ok (h.1 ++ (crlf ++ b))
  length_text is =
      let same : length h.0 ≡ 14 =
        sym (to_lower_case-length h.0)
        ∙ ap length ((str_eq_iff (to_lower_case h.0) (codes "content-length")).0 is) in
      let w : Bytes = h.1 ++ (crlf ++ b) in
      let value_at : around ≡ (a ++ (h.0 ++ codes ": ")) ++ (w ++ []) =
        by_value ∙ ap (λ t. (a ++ (h.0 ++ codes ": ")) ++ t) (sym (append-nil w)) in
      let start : length a + 16 ≡ length (a ++ (h.0 ++ codes ": ")) =
        simp length-append (omega (arith, same)) in
      let stop : length around ≡ length (a ++ (h.0 ++ codes ": ")) + length w =
        ap length by_value ∙ length-append (a ++ (h.0 ++ codes ": ")) w in
      ap (λ t. slice t (length a + 16) (length around)) value_at
      ∙ ap (λ n. slice ((a ++ (h.0 ++ codes ": ")) ++ (w ++ [])) n (length around)) start
      ∙ ap (slice ((a ++ (h.0 ++ codes ": ")) ++ (w ++ [])) (length (a ++ (h.0 ++ codes ": "))))
          stop
      ∙ slice-append (a ++ (h.0 ++ codes ": ")) w []

  parse_header_lem :
      (n : ℤ)
      → parse_header around
          (record { start = length a; stop = length a + length (header_line h) })
          (record { start = length a; stop = length a + length h.0 })
          n
        ≡ ok (lowered h, if is_length h then atoi h.1 else n)
  unfolding parse_header
  parse_header_lem n = elim (Bool-cases (is_length h)) [
    | inr e ↦ rw (copy_key, copy_value, e) refl
    | inl e ↦
        let (digits, some_digit) = p.number e in
        let read : atoi (c_text (h.1 ++ (crlf ++ b))) ≡ atoi h.1 =
          ap atoi (
            c_text-append h.1 (crlf ++ b) (Without-NoZero 13 h.1 p.value_line)
            ∙ ap (λ t. h.1 ++ t) (c_text-append crlf b (refl, (refl, tt))))
          ∙ atoi-line h.1 (10 ∷ c_text b) digits some_digit in
        rw (copy_key, copy_value, e, length_text e, read) refl
  ]

pub nonzero : (n : ℕ) → 1 ≤ n → (n == 0) ≡ false
nonzero n h = ground arith

apart : (m n : ℕ) → m < n → (m == n) ≡ false
apart m n h = ground arith

-- One round of the loop.
parse_headers_round :
    (buffer a b : Bytes) (h : Header) (stop room last : ℕ) (acc : List Header) (n : ℤ)
    → IsPlain h
    → buffer ≡ a ++ (crlf ++ (header_line h ++ (crlf ++ b)))
    → last ≡ length a
    → last < stop
    → parse_headers buffer stop (suc room) last acc n
      ≡ parse_headers buffer stop room
          (length (a ++ crlf) + length (header_line h))
          (acc ++ lowered h ∷ [])
          (if is_length h then atoi h.1 else n)
unfolding parse_headers
parse_headers_round buffer a b h stop room last acc n p e at_last inside =
    let e' : buffer ≡ around (a ++ crlf) b h p =
      e ∙ sym (append_assoc a crlf (header_line h ++ (crlf ++ b))) in
    let at_line : last + 2 ≡ length (a ++ crlf) = omega (arith, at_last, length-append a crlf) in
    let line : find buffer (last + 2) line_end 0
        ≡ ok (record {
          start = length (a ++ crlf);
          stop = length (a ++ crlf) + length (header_line h);
        }) =
      ap (λ t. find t (last + 2) line_end 0) e'
      ∙ ap (λ i. find (around (a ++ crlf) b h p) i line_end 0) at_line
      ∙ find_line (a ++ crlf) b h p in
    let name : find buffer (length (a ++ crlf)) (codes ": ")
          (length (a ++ crlf) + length (header_line h))
        ≡ ok (record { start = length (a ++ crlf); stop = length (a ++ crlf) + length h.0 }) =
      ap
        (λ t.
          find t (length (a ++ crlf)) (codes ": ") (length (a ++ crlf) + length (header_line h)))
        e'
      ∙ find_key (a ++ crlf) b h p (length (a ++ crlf) + length (header_line h)) in
    let parsed =
      ap
        (λ t.
          parse_header t
            (record {
              start = length (a ++ crlf);
              stop = length (a ++ crlf) + length (header_line h);
            })
            (record { start = length (a ++ crlf); stop = length (a ++ crlf) + length h.0 }) n)
        e'
      ∙ parse_header_lem (a ++ crlf) b h p n in
    rw
      (
        apart last stop inside,
        line,
        name,
        nonzero (length (a ++ crlf)) (omega (arith, at_line)),
        nonzero (length (a ++ crlf) + length h.0) (omega (arith, at_line)),
        parsed,
      )
      refl

pub parse_headers_lem :
    (hs : List Header) (buffer a b : Bytes) (stop room last : ℕ) (acc : List Header) (n : ℤ)
    → ArePlain hs
    → length hs ≤ room
    → buffer ≡ a ++ (crlf ++ (lines (map header_line hs) ++ (crlf ++ b)))
    → last ≡ length a
    → stop ≡ length a + length (lines (map header_line hs))
    → parse_headers buffer stop room last acc n ≡ ok (some (acc ++ map lowered hs, announced n hs))
parse_headers_lem [] buffer a b stop room last acc n ps fits e at_last at_stop =
    ending room ∙ ap (λ l. ok (some (l, n))) (sym (append-nil acc))
  where
    same : (last == stop) ≡ true
    same = subst (λ k. (last == k) ≡ true) (omega (arith, at_last, at_stop)) (==_refl last)

    ending : (room : ℕ) → parse_headers buffer stop room last acc n ≡ ok (some (acc, n))
    ending zero = unfold parse_headers in rw same refl
    ending (suc room) = unfold parse_headers in rw same refl
parse_headers_lem (h ∷ hs) buffer a b stop zero last acc n ps fits e at_last at_stop =
    absurd (omega (arith, fits))
parse_headers_lem (h ∷ hs) buffer a b stop (suc room) last acc n (p, ps) fits e at_last at_stop =
    let tail = lines (map header_line hs) ++ (crlf ++ b) in
    let whole : buffer ≡ a ++ (crlf ++ (header_line h ++ (crlf ++ tail))) =
      e
      ∙ ap (λ t. a ++ (crlf ++ t))
          (append_assoc (header_line h) (crlf ++ lines (map header_line hs)) (crlf ++ b)) in
    parse_headers_round buffer a tail h stop room last acc n p whole at_last (
      omega (
        arith,
        at_last,
        at_stop,
        length-append (header_line h) (crlf ++ lines (map header_line hs)),
      ))
    ∙ parse_headers_lem hs buffer ((a ++ crlf) ++ header_line h) b stop room _
        (acc ++ lowered h ∷ []) (if is_length h then atoi h.1 else n) ps (omega (arith, fits))
        (whole ∙ simp append_assoc) (sym (length-append (a ++ crlf) (header_line h)))
        (omega (
          arith,
          at_stop,
          length-append (header_line h) (crlf ++ lines (map header_line hs)),
          length-append (a ++ crlf) (header_line h),
          length-append a crlf,
        ))
    ∙ ap (λ l. ok (some (l, announced (if is_length h then atoi h.1 else n) hs)))
        (append_assoc acc (lowered h ∷ []) (map lowered hs))
