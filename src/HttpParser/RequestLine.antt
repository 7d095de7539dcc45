-- ===== src/HttpParser/RequestLine.antt =====
-- The request line in server/libs/httpparser.c.
use pal_ft.Base.{
  ◌+◌, ◌-◌, ◌<◌, ◌≡◌, refl, sym, ap, subst, ◌∙◌, some, [], ◌∷◌, ◌++◌, append_assoc, arith, length,
  length-append, true, ok,
}
use pal_ft.HttpParser.{copy, find, line_end, check_method, methods, parse_line}
use pal_ft.HttpParser.Headers.{nonzero}
use pal_ft.HttpParser.Text.{Without-NoZero, copy-append}
use pal_ft.HttpParser.Head.{IsWord, methods_words, among-IsWord, find_method}
use pal_ft.Libc.{Bytes, codes, str_eq}
use pal_ft.Libtstr.Finds.{Without, tstr_find_between_first}
use pal_ft.Libtstr.Finds.Blank.{crlf}

-- The request line of method `m` and path `p`, with `b` behind it.
module _ (m p b : Bytes) (known : check_method m ≡ true) (fits : length m < 7)
    (word : Without 32 p) where
  abbrev pub text : Bytes
  text = m ++ (32 ∷ (p ++ (codes " HTTP/1.1" ++ (crlf ++ b))))

  pub is_word : IsWord m
  is_word = among-IsWord m methods methods_words (unfold check_method in known)

  copy_method : copy 7 text 0 (length m) ≡ ok m
  copy_method =
      ap (copy 7 text 0) (omega arith)
      ∙ copy-append 7 [] m (32 ∷ (p ++ (codes " HTTP/1.1" ++ (crlf ++ b))))
          (Without-NoZero 32 m is_word.0) fits

  by_path : text ≡ (m ++ 32 ∷ []) ++ (p ++ (32 ∷ (codes "HTTP/1.1" ++ (crlf ++ b))))
  by_path = sym (append_assoc m (32 ∷ []) (p ++ (codes " HTTP/1.1" ++ (crlf ++ b))))

  at_path : length m + 1 ≡ length (m ++ 32 ∷ [])
  at_path = sym (length-append m (32 ∷ []))

  find_path :
      find text (length m + 1) (codes " ") 0
      ≡ ok (record { start = length m + 1; stop = length m + 1 + length p })
  find_path =
      ap (λ t. find t (length m + 1) (codes " ") 0) by_path
      ∙ subst
          (λ i.
            find ((m ++ 32 ∷ []) ++ (p ++ (32 ∷ (codes "HTTP/1.1" ++ (crlf ++ b))))) i (codes " ") 0
            ≡ ok (record { start = i; stop = i + length p }))
          (sym at_path)
          (tstr_find_between_first (m ++ 32 ∷ []) p (codes "HTTP/1.1" ++ (crlf ++ b)) 32 [] 0
            (refl, tt) word (omega (arith, at_path)))

  copy_path :
      copy
        (length m + 1 + length p - (length m + 1) + 1)
        text
        (length m + 1)
        (length m + 1 + length p)
      ≡ ok p
  copy_path =
      ap
        (λ t.
          copy (length m + 1 + length p - (length m + 1) + 1) t (length m + 1)
            (length m + 1 + length p))
        by_path
      ∙ subst
          (λ i.
            copy (i + length p - i + 1)
              ((m ++ 32 ∷ []) ++ (p ++ (32 ∷ (codes "HTTP/1.1" ++ (crlf ++ b))))) i (i + length p)
            ≡ ok p)
          (sym at_path) (copy-append _ (m ++ 32 ∷ []) p _ (Without-NoZero 32 p word) (omega arith))

  abbrev pub front : Bytes
  front = m ++ (32 ∷ (p ++ codes " HTTP/"))

  by_version : text ≡ front ++ (codes "1.1" ++ (crlf ++ b))
  by_version = simp append_assoc

  at_version : length m + 1 + length p + 1 + 5 ≡ length front
  at_version = simp length-append (omega arith)

  find_version :
      find text (length m + 1 + length p + 1 + 5) line_end 0
      ≡ ok (record { start = length front; stop = length front + 3 })
  find_version =
      ap (λ t. find t (length m + 1 + length p + 1 + 5) line_end 0) by_version
      ∙ ap (λ i. find (front ++ (codes "1.1" ++ (crlf ++ b))) i line_end 0) at_version
      ∙ tstr_find_between_first front (codes "1.1") b 13 (10 ∷ []) 0 (refl, (refl, tt))
          (refl, refl, (refl, refl, (refl, refl, tt))) (omega arith)

  copy_version : copy 4 text (length front) (length front + 3) ≡ ok (codes "1.1")
  copy_version =
      ap (λ t. copy 4 t (length front) (length front + 3)) by_version
      ∙ copy-append 4 front (codes "1.1") (crlf ++ b) (refl, (refl, (refl, tt))) (omega arith)

  pub parse_line_lem :
      parse_line text
      ≡ ok (some (record { method = m; path = p; version = codes "1.1"; stop = length front + 3 }))
  unfolding parse_line
  parse_line_lem =
      rw
        (
          find_method m (p ++ (codes " HTTP/1.1" ++ (crlf ++ b))) is_word,
          nonzero (length m) is_word.2,
          copy_method,
          known,
          find_path,
          nonzero (length m + 1 + length p) (omega arith),
          copy_path,
          find_version,
          nonzero (length front + 3) (omega arith),
          copy_version,
        )
        (unfold str_eq in refl)
