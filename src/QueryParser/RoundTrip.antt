-- ===== src/QueryParser/RoundTrip.antt =====
-- The query string of parameters, and what server/libs/queryparser.c finds in it.
use mathlib.Core.Option
use pal_ft.Base.{
  ℕ, ◌+◌, ◌≤◌, ◌<◌, ◌≡◌, refl, subst, sym, ap, ◌∙◌, List, [], ◌∷◌, ◌++◌, append_assoc, append-nil,
  arith, length, length-append, lt→leb_false, ok,
}
use pal_ft.Libc.{Bytes}
use pal_ft.QueryParser.{
  Info, Parser, next, State, initial, on_key, on_value, current, on_char, step, run, value_of,
  qparser_init, qparser_parse, qparser_get_query,
}
use pal_ft.QueryParser.Spelled.{
  IsText, AreText, Pair, Entries, IsPair, ArePairs, lookup, Spells-nonzero, find_query-lookup,
}
use pal_ft.QueryParser.Steps.{OnKey, OnValue, step-IsText, key_char, value_char}
use pal_ft.QueryParser.Turns.{step-equals, step-ampersand, next_value, next_key, finish-Entries}

abbrev pub pair_text : Pair → Bytes → Bytes
pair_text (k, v) rest = k ++ (b'=' ∷ (v ++ rest))

abbrev pub more_text : List Pair → Bytes
more_text [] = []
more_text (pair ∷ pairs) = b'&' ∷ pair_text pair (more_text pairs)

-- A path with parameters, the first of which is given by itself.
abbrev pub query_text : Bytes → Pair → List Pair → Bytes
query_text path pair pairs = path ++ (b'?' ∷ pair_text pair (more_text pairs))

run-next :
    (p p' : Parser) (c : ℕ) (url : Bytes) → step p c ≡ ok (next p') → run p (c ∷ url) ≡ run p' url
unfolding run
run-next p p' c url e = rw e refl

run-on_char :
    (p p' : Parser) (st : State) (c : ℕ) (url : Bytes)
    → IsText c
    → p.info.queries_length < p.info.length
    → p.state ≡ st
    → on_char st p c ≡ ok (next p')
    → run p (c ∷ url) ≡ run p' url
run-on_char p p' st c url is room at_state e =
    run-next p p' c url (step-IsText p c is room ∙ ap (λ s. on_char s p c) at_state ∙ e)

module _ (limit : ℕ) where
  run_key :
      (pairs : List Pair) (k rest done : Bytes) (p : Parser)
      → AreText k
      → length done + length k < 64
      → OnKey limit pairs done on_key p
      → (p' : Parser) × (run p (k ++ rest) ≡ run p' rest) × OnKey limit pairs (done ++ k) on_key p'
  run_key pairs [] rest done p t fits o =
      (p, refl, subst (λ k. OnKey limit pairs k on_key p) (sym (append-nil done)) o)
  run_key pairs (c ∷ k) rest done p (is, t) fits o =
      let (q, char, o') = key_char limit pairs done p c o (omega (arith, fits)) in
      let (p', rest_runs, o'') =
        run_key pairs k rest (done ++ c ∷ []) q t (omega (arith, fits, length-append done (c ∷ [])))
          o' in
      (
        p',
        run-on_char p q _ c (k ++ rest) is (omega (arith, o.limit_same, o.entries_count, o.room))
              o.at_state (unfold on_char in char)
            ∙ rest_runs,
        subst (λ k'. OnKey limit pairs k' on_key p') (append_assoc done (c ∷ []) k) o'',
      )

  run_value :
      (pairs : List Pair) (k v rest done : Bytes) (p : Parser)
      → AreText v
      → length done + length v < 1024
      → OnValue limit pairs k done on_value p
      → (p' : Parser) × (run p (v ++ rest) ≡ run p' rest)
        × OnValue limit pairs k (done ++ v) on_value p'
  run_value pairs k [] rest done p t fits o =
      (p, refl, subst (λ v. OnValue limit pairs k v on_value p) (sym (append-nil done)) o)
  run_value pairs k (c ∷ v) rest done p (is, t) fits o =
      let (q, char, o') = value_char limit pairs k done p c o (omega (arith, fits)) in
      let (p', rest_runs, o'') =
        run_value pairs k v rest (done ++ c ∷ []) q t
          (omega (arith, fits, length-append done (c ∷ []))) o' in
      (
        p',
        run-on_char p q _ c (v ++ rest) is (omega (arith, o.limit_same, o.entries_count, o.room))
              o.at_state (unfold on_char in char)
            ∙ rest_runs,
        subst (λ v'. OnValue limit pairs k v' on_value p') (append_assoc done (c ∷ []) v) o'',
      )

  -- From the end of a key to the end of its value.
  run_rest :
      (pairs : List Pair) (k v rest : Bytes) (p : Parser)
      → IsPair (k, v)
      → OnKey limit pairs k on_key p
      → (p' : Parser) × (run p (b'=' ∷ (v ++ rest)) ≡ run p' rest)
        × OnValue limit pairs k v on_value p'
  run_rest pairs k [] rest p is o = absurd (omega (arith, is.value_some))
  run_rest pairs k (c ∷ v) rest p is o =
      let (q, equals, o₁) = step-equals limit pairs k p o in
      let (r, char, o₂) = next_value limit pairs k q c o₁ is.key_fits in
      let (p', value, o₃) =
        run_value pairs k v rest (c ∷ []) r is.value_text.1 (omega (arith, is.value_fits)) o₂ in
      (
        p',
        run-next p q b'=' ((c ∷ v) ++ rest) equals
            ∙ run-on_char q r _ c (v ++ rest) is.value_text.0
                (omega (arith, o₁.limit_same, o₁.entries_count, o₁.room)) o₁.at_state
                (unfold on_char in char)
            ∙ value,
        o₃,
      )

  -- The parameters from the end of a value on.
  run_more :
      (pairs more : List Pair) (k v : Bytes) (p : Parser)
      → IsPair (k, v)
      → ArePairs more
      → length pairs + 1 + length more ≤ limit
      → OnValue limit pairs k v on_value p
      → (info : Info) × (run p (more_text more) ≡ ok info)
        × Entries info.queries 0 (pairs ++ (k, v) ∷ more)
        × (info.queries_length ≡ length (pairs ++ (k, v) ∷ more))
  unfolding run
  run_more pairs [] k v p is are room o =
      finish-Entries limit pairs k v p o
        (Spells-nonzero (current p).key k is.key_some is.key_text o.key) is.value_fits
  run_more pairs (([], v') ∷ more) k v p is (is', are) room o = absurd (omega (arith, is'.key_some))
  run_more pairs ((c ∷ k', v') ∷ more) k v p is (is', are) room o =
      let (q, ampersand, o₁) = step-ampersand limit pairs k v p o in
      let (r, char, o₂) = next_key limit pairs k v q c o₁ is.value_fits (omega (arith, room)) in
      let (s, key, o₃) =
        run_key (pairs ++ (k, v) ∷ []) k' (b'=' ∷ (v' ++ more_text more)) (c ∷ []) r is'.key_text.1
          (omega (arith, is'.key_fits)) o₂ in
      let (t, value, o₄) = run_rest (pairs ++ (k, v) ∷ []) (c ∷ k') v' (more_text more) s is' o₃ in
      let (info, runs, entries, size) =
        run_more (pairs ++ (k, v) ∷ []) more (c ∷ k') v' t is' are
          (omega (arith, room, length-append pairs ((k, v) ∷ []))) o₄ in
      let same : (pairs ++ (k, v) ∷ []) ++ ((c ∷ k', v') ∷ more)
          ≡ pairs ++ ((k, v) ∷ (c ∷ k', v') ∷ more) =
        append_assoc pairs ((k, v) ∷ []) ((c ∷ k', v') ∷ more) in
      (
        info,
        run-next p q b'&' (c ∷ (k' ++ (b'=' ∷ (v' ++ more_text more)))) ampersand
            ∙ run-on_char q r _ c _ is'.key_text.0
                (omega (arith, o₁.limit_same, o₁.entries_count, o₁.room)) o₁.at_state
                (unfold on_char in char)
            ∙ key
            ∙ value
            ∙ runs,
        subst (Entries info.queries 0) same entries,
        size ∙ ap length same,
      )

  -- The path before the first parameter.
  run_path :
      (path rest : Bytes) (p : Parser)
      → AreText path
      → p.state ≡ initial
      → p.info.queries_length < p.info.length
      → run p (path ++ rest) ≡ run p rest
  run_path [] rest p t st room = refl
  run_path (c ∷ path) rest p (is, t) st room =
      run-on_char p p initial c (path ++ rest) is room st (unfold on_char in refl)
      ∙ run_path path rest p t st room

  run_question :
      (p : Parser) (url : Bytes)
      → p.info.queries_length < p.info.length
      → run p (b'?' ∷ url) ≡ run (record p { state = on_key }) url
  run_question p url room =
      run-next p (record p { state = on_key }) b'?' url
        (unfold step in rw (lt→leb_false p.info.queries_length p.info.length room) refl)

  -- A path followed by `?` and one or more parameters, at most as many as there is room for, is
  -- parsed without an access out of bounds, and then every key finds the value of the first
  -- parameter with that key, or nothing if there is none. The path has none of `?`, `=`, `&` and
  -- the zero byte, nor has any key or value; no key and no value is empty, a key has up to 63
  -- bytes and a value up to 1023.
  pub qparser_parse-lookup :
      (path : Bytes) (pair : Pair) (pairs : List Pair)
      → AreText path
      → ArePairs (pair ∷ pairs)
      → length (pair ∷ pairs) ≤ limit
      → (info : Info) × (qparser_parse (qparser_init limit) (query_text path pair pairs) ≡ ok info)
        × ((key : Bytes)
            → Option.map value_of (qparser_get_query info key) ≡ lookup key (pair ∷ pairs))
  unfolding qparser_parse qparser_init qparser_get_query
  qparser_parse-lookup path (k, v) pairs t (is, are) room =
      let p : Parser = record {
        info = qparser_init limit;
        key_index = 0;
        value_index = 0;
        state = initial;
      } in
      let (q, key, o) =
        run_key [] k (b'=' ∷ (v ++ more_text pairs)) [] (record p { state = on_key }) is.key_text
          (omega (arith, is.key_fits))
          (record {
            limit_same = refl;
            entries_count = refl;
            entries = tt;
            at_state = refl;
            key_count = refl;
            value_none = refl;
            key = tt;
            room = omega (arith, room);
          }) in
      let (r, value, o') = run_rest [] k v (more_text pairs) q is o in
      let (info, runs, entries, size) = run_more [] pairs k v r is are (omega (arith, room)) o' in
      (
        info,
        run_path path _ p t refl (omega (arith, room))
            ∙ run_question p _ (omega (arith, room))
            ∙ key
            ∙ value
            ∙ runs,
        λ wanted.
            find_query-lookup info.queries 0 info.queries_length wanted ((k, v) ∷ pairs) (sym size)
              (is, are) entries,
      )
