-- ===== src/QueryParser/Room.antt =====
-- server/libs/queryparser.c on a path that is shorter than the buffer of a key: no write is out of
-- bounds.
use pal_ft.Base.{
  ℕ, suc, ◌+◌, ◌≤◌, ◌<◌, ◌≡◌, refl, Bool, true, false, [], ◌∷◌, arith, length, leb, lt→ltb,
  lt→leb_false, ◌==◌, if◌then◌else◌, Outcome, ok, fault, exited, ◌>>=◌,
}
use pal_ft.Libc.{Bytes}
use pal_ft.QueryParser.{
  Info, Parser, Flow, next, return, follow, State, initial, on_key, on_key_value_end, on_value,
  on_value_key_end, key_size, current, set_current, update, write_key, write_value, on_key_char,
  on_next_key, on_value_char, on_next_value, on_char, step, finish, run, qparser_init,
  qparser_parse,
}

-- The parser has `limit` queries, of which one is free, and `n` characters fit where it writes.
record Room (limit n : ℕ) (p : Parser) : Type 0 where
  same_limit : p.info.length ≡ limit
  free : p.info.queries_length < limit
  key : p.key_index + n < 64
  value : p.value_index + n < 1024

-- A round with `n` characters to come goes on with room for them, or gives up with the queries that
-- are there.
Fine : ℕ → ℕ → Outcome Flow → Type 0
Fine limit n (ok (next p)) = Room limit n p
Fine limit n (ok (return p)) = (p.info.length ≡ limit) × (p.info.queries_length ≤ limit)
Fine limit n fault = ⊥
Fine limit n (exited _) = ⊥

if-Fine :
    (limit n : ℕ) (test : Bool) (x y : Outcome Flow)
    → (test ≡ true → Fine limit n x)
    → (test ≡ false → Fine limit n y)
    → Fine limit n (if test then x else y)
if-Fine limit n true x y h k = h refl
if-Fine limit n false x y h k = k refl

write_key_ok :
    (p : Parser) (c : ℕ)
    → p.key_index < 64
    → write_key p c
      ≡ ok (record p {
        info = set_current p (record (current p) { key = update (current p).key p.key_index c });
      })
unfolding write_key
write_key_ok p c h = rw (lt→ltb p.key_index 64 h)

write_value_ok :
    (p : Parser) (c : ℕ)
    → p.value_index < 1024
    → write_value p c
      ≡ ok (record p {
        info =
            set_current p (record (current p) { value = update (current p).value p.value_index c });
      })
unfolding write_value
write_value_ok p c h = rw (lt→ltb p.value_index 1024 h)

on_key_char-Fine :
    (limit n : ℕ) (p : Parser) (c : ℕ) → Room limit (suc n) p → Fine limit n (on_key_char p c)
unfolding on_key_char Fine
on_key_char-Fine limit n p c h =
    rw (lt→leb_false p.key_index 64 (omega (arith, h.key)), write_key_ok p c (omega (arith, h.key)))
      (record {
        same_limit = h.same_limit;
        free = h.free;
        key = omega (arith, h.key);
        value = omega (arith, h.value);
      })

on_value_char-Fine :
    (limit n : ℕ) (p : Parser) (c : ℕ) → Room limit (suc n) p → Fine limit n (on_value_char p c)
unfolding on_value_char Fine
on_value_char-Fine limit n p c h =
    rw
      (
        lt→leb_false p.value_index 1024 (omega (arith, h.value)),
        write_value_ok p c (omega (arith, h.value)),
      )
      (record {
        same_limit = h.same_limit;
        free = h.free;
        key = omega (arith, h.key);
        value = omega (arith, h.value);
      })

on_next_value-Fine :
    (limit n : ℕ) (p : Parser) (c : ℕ) → Room limit (suc n) p → Fine limit n (on_next_value p c)
unfolding on_next_value
on_next_value-Fine limit n p c h =
    rw
      (
        lt→leb_false p.value_index 1024 (omega (arith, h.value)),
        write_key_ok p 0 (omega (arith, h.key)),
      )
      (on_value_char-Fine limit n _ c (record {
        same_limit = h.same_limit;
        free = h.free;
        key = omega (arith, h.key);
        value = h.value;
      }))

on_next_key-Fine :
    (limit n : ℕ) (p : Parser) (c : ℕ) → Room limit (suc n) p → Fine limit n (on_next_key p c)
unfolding on_next_key
on_next_key-Fine limit n p c h =
    rw
      (
        lt→leb_false p.key_index 64 (omega (arith, h.key)),
        write_value_ok p 0 (omega (arith, h.value)),
      )
      (if-Fine limit n (leb p.info.length (p.info.queries_length + 1)) _ _
        (λ _. unfold Fine in (h.same_limit, omega (arith, h.free)))
        (λ e. on_key_char-Fine limit n _ c (record {
          same_limit = h.same_limit;
          free = ground (arith, h.free, h.same_limit, e);
          key = h.key;
          value = omega (arith, h.value);
        })))

fewer :
    (limit n : ℕ) (p : Parser) (state : State)
    → Room limit (suc n) p
    → Fine limit n (ok (next (record p { state = state })))
unfolding Fine
fewer limit n p state h = record {
  same_limit = h.same_limit;
  free = h.free;
  key = omega (arith, h.key);
  value = omega (arith, h.value);
}

on_char-Fine :
    (limit n : ℕ) (state : State) (p : Parser) (c : ℕ)
    → Room limit (suc n) p
    → Fine limit n (on_char state p c)
unfolding on_char
on_char-Fine limit n initial p c h = fewer limit n p p.state h
on_char-Fine limit n on_key p c h = on_key_char-Fine limit n p c h
on_char-Fine limit n on_key_value_end p c h = on_next_key-Fine limit n p c h
on_char-Fine limit n on_value p c h = on_value_char-Fine limit n p c h
on_char-Fine limit n on_value_key_end p c h = on_next_value-Fine limit n p c h

step-Fine : (limit n : ℕ) (p : Parser) (c : ℕ) → Room limit (suc n) p → Fine limit n (step p c)
unfolding step
step-Fine limit n p c h =
    rw (lt→leb_false p.info.queries_length p.info.length (omega (arith, h.free, h.same_limit))) (
      if-Fine limit n (c == b'?') _ _ (λ _. fewer limit n p on_key h)
        (λ _.
          if-Fine limit n (c == b'=') _ _ (λ _. fewer limit n p on_value_key_end h)
            (λ _.
              if-Fine limit n (c == b'&') _ _ (λ _. fewer limit n p on_key_value_end h)
                (λ _. on_char-Fine limit n p.state p c h))))

-- The code returns, with at most `limit` queries.
Parsed : ℕ → Outcome Info → Type 0
Parsed limit (ok info) = (info.length ≡ limit) × (info.queries_length ≤ limit)
Parsed limit fault = ⊥
Parsed limit (exited _) = ⊥

if-Parsed :
    (limit : ℕ) (test : Bool) (x y : Outcome Info)
    → Parsed limit x
    → Parsed limit y
    → Parsed limit (if test then x else y)
if-Parsed limit true x y h k = h
if-Parsed limit false x y h k = k

finish-Parsed : (limit : ℕ) (p : Parser) → Room limit 0 p → Parsed limit (finish p)
unfolding finish Parsed
finish-Parsed limit p h =
    rw (lt→ltb p.info.queries_length p.info.length (omega (arith, h.free, h.same_limit))) (
      if-Parsed limit ((current p).key 0 == 0) _ _ (h.same_limit, omega (arith, h.free))
        (if-Parsed limit (leb key_size p.key_index) _ _ (h.same_limit, omega (arith, h.free))
          (rw (write_value_ok p 0 (omega (arith, h.value))) (h.same_limit, omega (arith, h.free)))))

follow-Parsed :
    (limit n : ℕ) (o : Outcome Flow) (k : Parser → Outcome Info)
    → Fine limit n o
    → ((p : Parser) → Room limit n p → Parsed limit (k p))
    → Parsed limit (o >>= λ flow. follow flow k)
unfolding Fine Parsed
follow-Parsed limit n (ok (next p)) k f h = h p f
follow-Parsed limit n (ok (return p)) k f h = f
follow-Parsed limit n fault k f h = absurd f
follow-Parsed limit n (exited _) k f h = absurd f

run-Parsed :
    (limit : ℕ) (p : Parser) (url : Bytes) → Room limit (length url) p → Parsed limit (run p url)
unfolding run
run-Parsed limit p [] h = finish-Parsed limit p h
run-Parsed limit p (c ∷ url) h =
    follow-Parsed limit (length url) (step p c) _ (step-Fine limit (length url) p c h)
      λ p' room. run-Parsed limit p' url room

Parsed-ok :
    (limit : ℕ) (o : Outcome Info)
    → Parsed limit o
    → (info : Info) × (o ≡ ok info) × (info.length ≡ limit) × (info.queries_length ≤ limit)
unfolding Parsed
Parsed-ok limit (ok info) h = (info, refl, h.0, h.1)
Parsed-ok limit fault h = absurd h
Parsed-ok limit (exited _) h = absurd h

-- A path of up to 63 bytes is parsed without an access out of bounds, into a buffer of any number
-- of queries but none, and at most that many queries are found.
pub qparser_parse_returns :
    (limit : ℕ) (url : Bytes)
    → 1 ≤ limit
    → length url ≤ 63
    → (info : Info) × (qparser_parse (qparser_init limit) url ≡ ok info)
      × (info.length ≡ limit)
      × (info.queries_length ≤ limit)
unfolding qparser_parse qparser_init
qparser_parse_returns limit url some_query short = Parsed-ok limit _ (
    run-Parsed limit _ url (record {
      same_limit = refl;
      free = omega (arith, some_query);
      key = omega (arith, short);
      value = omega (arith, short);
    }))
