-- ===== src/QueryParser/Turns.antt =====
-- The rounds of server/libs/queryparser.c at which a key or a value ends.
use pal_ft.Base.{
  ℕ, ◌+◌, ◌<◌, ◌≡◌, refl, subst, sym, false, List, [], ◌∷◌, ◌++◌, arith, length, length-append,
  ◌==◌, lt→ltb, lt→leb_false, ok,
}
use pal_ft.Libc.{Bytes}
use pal_ft.QueryParser.{
  Query, Info, Parser, next, State, on_key, on_key_value_end, on_value, on_value_key_end, current,
  set_current, update, on_next_key, on_next_value, step, finish,
}
use pal_ft.QueryParser.Spelled.{
  Spells, Pair, Reads, Entries, update-at, update-Spells, update-Entries, Entries-snoc,
}
use pal_ft.QueryParser.Steps.{
  OnKey, OnValue, write_key_lem, write_value_lem, current-set, key_char, value_char,
}

pub step-equals :
    (limit : ℕ) (pairs : List Pair) (k : Bytes) (p : Parser)
    → OnKey limit pairs k on_key p
    → (p' : Parser) × (step p b'=' ≡ ok (next p')) × OnKey limit pairs k on_value_key_end p'
unfolding step
step-equals limit pairs k p o = (
  record p { state = on_value_key_end },
  rw
      (lt→leb_false p.info.queries_length p.info.length
        (omega (arith, o.limit_same, o.entries_count, o.room)))
      refl,
  record {
    limit_same = o.limit_same;
    entries_count = o.entries_count;
    entries = o.entries;
    at_state = refl;
    key_count = o.key_count;
    value_none = o.value_none;
    key = o.key;
    room = o.room;
  },
)

pub step-ampersand :
    (limit : ℕ) (pairs : List Pair) (k v : Bytes) (p : Parser)
    → OnValue limit pairs k v on_value p
    → (p' : Parser) × (step p b'&' ≡ ok (next p')) × OnValue limit pairs k v on_key_value_end p'
unfolding step
step-ampersand limit pairs k v p o = (
  record p { state = on_key_value_end },
  rw
      (lt→leb_false p.info.queries_length p.info.length
        (omega (arith, o.limit_same, o.entries_count, o.room)))
      refl,
  record {
    limit_same = o.limit_same;
    entries_count = o.entries_count;
    entries = o.entries;
    at_state = refl;
    key_none = o.key_none;
    value_count = o.value_count;
    key = o.key;
    key_end = o.key_end;
    value = o.value;
    room = o.room;
  },
)

-- The first character of a value ends the key.
pub next_value :
    (limit : ℕ) (pairs : List Pair) (k : Bytes) (p : Parser) (c : ℕ)
    → OnKey limit pairs k on_value_key_end p
    → length k < 64
    → (p' : Parser) × (on_next_value p c ≡ ok (next p'))
      × OnValue limit pairs k (c ∷ []) on_value p'
unfolding on_next_value
next_value limit pairs k p c o fits =
    let small : p.key_index < 64 = omega (arith, o.key_count, fits) in
    let q : Query = record (current p) { key = update (current p).key p.key_index 0 } in
    let ended : Parser = record p { info = set_current p q; state = on_value; key_index = 0 } in
    let (p', written, o') =
      value_char limit pairs k [] ended c
        (record {
          limit_same = o.limit_same;
          entries_count = o.entries_count;
          entries =
              update-Entries p.info.queries p.info.queries_length q 0 pairs
                (omega (arith, o.entries_count)) o.entries;
          at_state = refl;
          key_none = refl;
          value_count = o.value_none;
          key =
              subst (λ x. Spells x.key 0 k) (sym (current-set p q))
                (update-Spells (current p).key p.key_index 0 0 k (omega (arith, o.key_count))
                  o.key);
          key_end =
              subst (λ x. x.key (length k) ≡ 0) (sym (current-set p q))
                (subst (λ i. update (current p).key i 0 (length k) ≡ 0) (sym o.key_count)
                  (update-at (current p).key (length k) 0));
          value = tt;
          room = o.room;
        })
        (omega arith) in
    (
      p',
      rw (lt→leb_false p.value_index 1024 (omega (arith, o.value_none)), write_key_lem p 0 small)
          written,
      o',
    )

-- The terminator of the value completes a query.
ended-Reads :
    (limit : ℕ) (pairs : List Pair) (k v : Bytes) (st : State) (p : Parser)
    → OnValue limit pairs k v st p
    → Reads (record (current p) { value = update (current p).value p.value_index 0 }) (k, v)
ended-Reads limit pairs k v st p o = record {
  key = o.key;
  key_end = o.key_end;
  value =
      update-Spells (current p).value p.value_index 0 0 v (omega (arith, o.value_count)) o.value;
  value_end =
      subst (λ i. update (current p).value i 0 (length v) ≡ 0) (sym o.value_count)
        (update-at (current p).value (length v) 0);
}

ended-Entries :
    (limit : ℕ) (pairs : List Pair) (k v : Bytes) (st : State) (p : Parser)
    → OnValue limit pairs k v st p
    → Entries
        (set_current p
          (record (current p) { value = update (current p).value p.value_index 0 })).queries
        0
        (pairs ++ (k, v) ∷ [])
ended-Entries limit pairs k v st p o =
    let q : Query = record (current p) { value = update (current p).value p.value_index 0 } in
    Entries-snoc (set_current p q).queries 0 p.info.queries_length pairs (k, v)
      (omega (arith, o.entries_count))
      (update-Entries p.info.queries p.info.queries_length q 0 pairs
        (omega (arith, o.entries_count)) o.entries)
      (subst (λ x. Reads x (k, v)) (sym (current-set p q)) (ended-Reads limit pairs k v st p o))

-- The first character of the next key ends the value.
pub next_key :
    (limit : ℕ) (pairs : List Pair) (k v : Bytes) (p : Parser) (c : ℕ)
    → OnValue limit pairs k v on_key_value_end p
    → length v < 1024
    → length pairs + 1 < limit
    → (p' : Parser) × (on_next_key p c ≡ ok (next p'))
      × OnKey limit (pairs ++ (k, v) ∷ []) (c ∷ []) on_key p'
unfolding on_next_key
next_key limit pairs k v p c o fits more =
    let small : p.value_index < 1024 = omega (arith, o.value_count, fits) in
    let size : length (pairs ++ (k, v) ∷ []) ≡ length pairs + 1 =
      omega (arith, length-append pairs ((k, v) ∷ [])) in
    let info : Info =
      set_current p (record (current p) { value = update (current p).value p.value_index 0 }) in
    let ended : Parser = record p {
      info = record info { queries_length = info.queries_length + 1 };
      state = on_key;
      value_index = 0;
    } in
    let (p', written, o') =
      key_char limit (pairs ++ (k, v) ∷ []) [] ended c
        (record {
          limit_same = o.limit_same;
          entries_count = omega (arith, o.entries_count, size);
          entries = ended-Entries limit pairs k v on_key_value_end p o;
          at_state = refl;
          key_count = o.key_none;
          value_none = refl;
          key = tt;
          room = omega (arith, size, more);
        })
        (omega arith) in
    (
      p',
      rw
          (
            lt→leb_false p.key_index 64 (omega (arith, o.key_none)),
            write_value_lem p 0 small,
            lt→leb_false (p.info.queries_length + 1) p.info.length
                (omega (arith, o.limit_same, o.entries_count, more)),
          )
          written,
      o',
    )

-- The end of the path ends the last value.
pub finish-Entries :
    (limit : ℕ) (pairs : List Pair) (k v : Bytes) (p : Parser)
    → OnValue limit pairs k v on_value p
    → ((current p).key 0 == 0) ≡ false
    → length v < 1024
    → (info : Info) × (finish p ≡ ok info)
      × Entries info.queries 0 (pairs ++ (k, v) ∷ [])
      × (info.queries_length ≡ length (pairs ++ (k, v) ∷ []))
unfolding finish
finish-Entries limit pairs k v p o some_key fits =
    let small : p.value_index < 1024 = omega (arith, o.value_count, fits) in
    let info : Info =
      set_current p (record (current p) { value = update (current p).value p.value_index 0 }) in
    (
      record info { queries_length = info.queries_length + 1 },
      rw
          (
            lt→ltb p.info.queries_length p.info.length
                (omega (arith, o.limit_same, o.entries_count, o.room)),
            some_key,
            lt→leb_false p.key_index 64 (omega (arith, o.key_none)),
            write_value_lem p 0 small,
          )
          refl,
      ended-Entries limit pairs k v on_value p o,
      omega (arith, o.entries_count, length-append pairs ((k, v) ∷ [])),
    )
