-- ===== src/HttpParser/Accepted.antt =====
-- What server/libs/httpparser.c has checked of a request when it returns 0.
use pal_ft.Base.{
  ℕ, zero, suc, ◌+◌, ◌-◌, ◌≤◌, ◌≡◌, refl, Option, none, some, List, [], ◌∷◌, ◌++◌, arith, length,
  length-append, Bool, true, false, not, ◌||◌, ◌==◌, Outcome, ok, if◌then◌else◌, Ensures,
  ok-Ensures, >>=-Ensures, >>=-Ensures_of, if-Ensures, Ensures-ok,
}
use pal_ft.HttpParser.{
  Request, Line, copy, find, line_end, blank_line, check_method, parse_line, parse_header,
  parse_headers, parse_body, parse_chunk, httpparser_get_header, finish_request,
  httpparser_parse_request, positive,
}
use pal_ft.HttpServer.{Header}
use pal_ft.Libc.{Bytes, codes, str_eq, str_eq_iff, ℤ, pos}

abbrev OnSome {ℓ κ} : {A : Type ℓ} → (A → Type κ) → Option A → Type κ
OnSome P none = Unit
OnSome P (some a) = P a

abbrev Checked : Line → Type 0
Checked l = (check_method l.method ≡ true) × (l.version ≡ codes "1.1")

-- An `if` that returns none where a test fails.
unless_lem {ℓ κ} :
    {A : Type ℓ} (P : A → Type κ) (b : Bool) (out : Outcome (Option A))
    → (b ≡ false → Ensures (OnSome P) out)
    → Ensures (OnSome P) (if b then ok none else out)
unfolding Ensures
unless_lem P true out h = tt
unless_lem P false out h = h refl

-- A match on an option.
match_lem {ℓ κ μ} :
    {A : Type ℓ} {B : Type κ} (P : B → Type μ) (o : Option A) (missing : Outcome B)
    (found : A → Outcome B)
    → Ensures P missing
    → ((a : A) → Ensures P (found a))
    → Ensures P (elim o [ none ↦ missing | some a ↦ found a ])
match_lem P none missing found h k = h
match_lem P (some a) missing found h k = k a

-- A match on one that keeps its promise, and that returns none where there is none.
checked_lem {ℓ κ μ} :
    {A : Type ℓ} {B : Type κ} (Q : A → Type μ) (P : B → Type κ) (o : Option A)
    (found : A → Outcome (Option B))
    → OnSome Q o
    → ((a : A) → Q a → Ensures (OnSome P) (found a))
    → Ensures (OnSome P) (elim o [ none ↦ ok none | some a ↦ found a ])
unfolding Ensures
checked_lem Q P none found h k = tt
checked_lem Q P (some a) found h k = k a h

not-false : (b : Bool) → not b ≡ false → b ≡ true
not-false true e = refl
not-false false e = cc

parse_line-Checked : (buffer : Bytes) → Ensures (OnSome Checked) (parse_line buffer)
unfolding parse_line
parse_line-Checked buffer = >>=-Ensures _ (find buffer 0 (codes " ") 0) _ λ method_token.
    unless_lem Checked (method_token.stop == 0) _ λ _.
      >>=-Ensures _ (copy 7 buffer 0 method_token.stop) _ λ method.
        unless_lem Checked (not (check_method method)) _ λ known.
          >>=-Ensures _ (find buffer (method_token.stop + 1) (codes " ") 0) _ λ path_token.
            unless_lem Checked (path_token.stop == 0) _ λ _.
              >>=-Ensures _
                (copy (path_token.stop - path_token.start + 1) buffer path_token.start
                  path_token.stop)
                _
                λ path.
                  >>=-Ensures _ (find buffer (path_token.stop + 1 + 5) line_end 0) _
                    λ version_token. unless_lem Checked (version_token.stop == 0) _ λ _.
                      >>=-Ensures _ (copy 4 buffer version_token.start version_token.stop) _
                        λ version. unless_lem Checked (not (str_eq version (codes "1.1"))) _ λ same.
                          ok-Ensures (OnSome Checked)
                            (some (record {
                              method = method;
                              path = path;
                              version = version;
                              stop = version_token.stop;
                            }))
                            (
                              not-false _ known,
                              (str_eq_iff version (codes "1.1")).0 (not-false _ same),
                            )

abbrev Fits : ℕ → List Header × ℤ → Type 0
Fits most hs = length hs.0 ≤ most

parse_headers-Fits :
    (buffer : Bytes) (stop room last : ℕ) (headers : List Header) (content_length : ℤ) (most : ℕ)
    → length headers + room ≤ most
    → Ensures (OnSome (Fits most)) (parse_headers buffer stop room last headers content_length)
unfolding parse_headers Ensures
parse_headers-Fits buffer stop zero last headers content_length most h =
    if-Ensures (OnSome (Fits most)) (last == stop) _ _ (omega (arith, h)) (
      >>=-Ensures (OnSome (Fits most)) (find buffer (last + 2) line_end 0) _ λ header.
        >>=-Ensures (OnSome (Fits most)) (find buffer header.start (codes ": ") header.stop) _
          λ name. tt)
parse_headers-Fits buffer stop (suc room) last headers content_length most h =
    if-Ensures (OnSome (Fits most)) (last == stop) _ _ (omega (arith, h)) (
      >>=-Ensures (OnSome (Fits most)) (find buffer (last + 2) line_end 0) _ λ header.
        >>=-Ensures (OnSome (Fits most)) (find buffer header.start (codes ": ") header.stop) _
          λ name. if-Ensures (OnSome (Fits most)) (name.start == 0 || name.stop == 0) _ _ tt (
            >>=-Ensures (OnSome (Fits most)) (parse_header buffer header name content_length) _ λ x.
              parse_headers-Fits buffer stop room header.stop (headers ++ x.0 ∷ []) x.1 most
                (omega (arith, h, length-append headers (x.0 ∷ [])))))

-- The method, the version and the headers of a request with them.
pub record IsAccepted (max : ℕ) (r : Request) : Type 0 where
  pub known : check_method r.method ≡ true
  pub version : r.version ≡ codes "1.1"
  pub room : length r.headers ≤ max

finish_request-IsAccepted :
    (max : ℕ) (r : Request) (buffer : Bytes) (received head : ℕ) (content_length : ℤ)
    → IsAccepted max r
    → Ensures (OnSome (IsAccepted max)) (finish_request r buffer received head content_length)
unfolding finish_request Ensures
finish_request-IsAccepted max r buffer received head content_length h =
    let P = OnSome (IsAccepted max) in
    let encoding = httpparser_get_header r.headers (codes "transfer-encoding") in
    let typed = httpparser_get_header r.headers (codes "content-type") in
    let whole =
      >>=-Ensures P (parse_body buffer received head content_length)
        (λ body. elim body [
          | none ↦ ok none
          | some bytes ↦ ok (some (record r { body = some bytes; finished = some true }))
        ])
        λ body.
          match_lem P body (ok none) _ tt
            λ bytes. record { known = h.known; version = h.version; room = h.room } in
    let chunked = >>=-Ensures P (parse_chunk buffer received head) _ λ chunk.
      match_lem P chunk (ok none) _ tt
        λ x. record { known = h.known; version = h.version; room = h.room } in
    match_lem P encoding _ _
      (if-Ensures P (not (positive content_length)) (ok (some r)) _ h
        (match_lem P typed _ _ tt λ _. whole))
      (λ coding.
        match_lem P typed _ _ tt
          λ _. if-Ensures P (str_eq coding (codes "chunked")) _ _ chunked whole)

-- Whatever stands in the buffer, a request that the parser accepts has one of the known methods,
-- the version 1.1, and at most as many headers as there was room for.
pub httpparser_parse_request-IsAccepted :
    (r accepted : Request) (buffer : Bytes) (received : ℕ)
    → httpparser_parse_request r buffer received ≡ ok (some accepted)
    → IsAccepted r.headers_max_length accepted
unfolding httpparser_parse_request Ensures
httpparser_parse_request-IsAccepted r accepted buffer received e =
    let P = IsAccepted r.headers_max_length in
    Ensures-ok (OnSome P) (httpparser_parse_request r buffer received)
      (>>=-Ensures (OnSome P) (find buffer 0 blank_line 0) _ λ head.
        unless_lem P (head.stop == 0) _ λ _.
          >>=-Ensures_of (OnSome Checked) (OnSome P) (parse_line buffer) _
            (parse_line-Checked buffer)
            λ line q. checked_lem Checked P line _ q λ l checked.
              >>=-Ensures_of (OnSome (Fits r.headers_max_length)) (OnSome P) _ _
                (parse_headers-Fits buffer head.stop r.headers_max_length l.stop [] (pos 0)
                  r.headers_max_length (omega arith))
                λ headers fits. checked_lem (Fits r.headers_max_length) P headers _ fits λ hs room.
                  finish_request-IsAccepted r.headers_max_length _ buffer received head.stop hs.1
                    (record { known = checked.0; version = checked.1; room = room }))
      e
