-- ===== src/QueryParser/Steps.antt =====
-- One round of the loop in server/libs/queryparser.c on the text of parameters.
use pal_ft.Base.{
  ℕ, ◌+◌, ◌<◌, ◌≡◌, refl, subst, sym, List, [], ◌∷◌, ◌++◌, arith, length, length-append, lt→ltb,
  lt→leb_false, ok,
}
use pal_ft.Libc.{Bytes}
use pal_ft.QueryParser.{
  Query, Parser, next, State, on_key, on_value, current, set_current, update, write_key,
  write_value, on_key_char, on_value_char, on_char, step,
}
use pal_ft.QueryParser.Spelled.{
  IsText, Spells, Pair, Entries, update-at, Spells-snoc, update-Entries,
}

-- `pairs` are complete, and the key `k` is being read.
pub record OnKey (limit : ℕ) (pairs : List Pair) (k : Bytes) (st : State) (p : Parser)
    : Type 0 where
  pub limit_same : p.info.length ≡ limit
  pub entries_count : p.info.queries_length ≡ length pairs
  pub entries : Entries p.info.queries 0 pairs
  pub at_state : p.state ≡ st
  pub key_count : p.key_index ≡ length k
  pub value_none : p.value_index ≡ 0
  pub key : Spells (current p).key 0 k
  pub room : length pairs < limit

-- The key is complete, and the value `v` is being read.
pub record OnValue (limit : ℕ) (pairs : List Pair) (k v : Bytes) (st : State) (p : Parser)
    : Type 0 where
  pub limit_same : p.info.length ≡ limit
  pub entries_count : p.info.queries_length ≡ length pairs
  pub entries : Entries p.info.queries 0 pairs
  pub at_state : p.state ≡ st
  pub key_none : p.key_index ≡ 0
  pub value_count : p.value_index ≡ length v
  pub key : Spells (current p).key 0 k
  pub key_end : (current p).key (length k) ≡ 0
  pub value : Spells (current p).value 0 v
  pub room : length pairs < limit

-- A character that is copied is left to the state.
pub step-IsText :
    (p : Parser) (c : ℕ)
    → IsText c
    → p.info.queries_length < p.info.length
    → step p c ≡ on_char p.state p c
unfolding step
step-IsText p c (question, equals, ampersand, _) room =
    rw (lt→leb_false p.info.queries_length p.info.length room, question, equals, ampersand) refl

pub write_key_lem :
    (p : Parser) (c : ℕ)
    → p.key_index < 64
    → write_key p c
      ≡ ok (record p {
        info = set_current p (record (current p) { key = update (current p).key p.key_index c });
      })
unfolding write_key
write_key_lem p c h = rw (lt→ltb p.key_index 64 h) refl

pub write_value_lem :
    (p : Parser) (c : ℕ)
    → p.value_index < 1024
    → write_value p c
      ≡ ok (record p {
        info =
            set_current p (record (current p) { value = update (current p).value p.value_index c });
      })
unfolding write_value
write_value_lem p c h = rw (lt→ltb p.value_index 1024 h) refl

-- The query that is written is the current one.
pub current-set : (p : Parser) (q : Query) → (set_current p q).queries p.info.queries_length ≡ q
current-set p q = update-at p.info.queries p.info.queries_length q

pub key_char :
    (limit : ℕ) (pairs : List Pair) (k : Bytes) (p : Parser) (c : ℕ)
    → OnKey limit pairs k on_key p
    → length k < 64
    → (p' : Parser) × (on_key_char p c ≡ ok (next p')) × OnKey limit pairs (k ++ c ∷ []) on_key p'
unfolding on_key_char
key_char limit pairs k p c o fits =
    let small : p.key_index < 64 = omega (arith, o.key_count, fits) in
    let q : Query = record (current p) { key = update (current p).key p.key_index c } in
    (
      record p { info = set_current p q; key_index = p.key_index + 1 },
      rw (lt→leb_false p.key_index 64 small, write_key_lem p c small) refl,
      record {
        limit_same = o.limit_same;
        entries_count = o.entries_count;
        entries =
            update-Entries p.info.queries p.info.queries_length q 0 pairs
              (omega (arith, o.entries_count)) o.entries;
        at_state = o.at_state;
        key_count = omega (arith, o.key_count, length-append k (c ∷ []));
        value_none = o.value_none;
        key =
            subst (λ x. Spells x.key 0 (k ++ c ∷ [])) (sym (current-set p q))
              (Spells-snoc (current p).key p.key_index c 0 k (omega (arith, o.key_count)) o.key);
        room = o.room;
      },
    )

pub value_char :
    (limit : ℕ) (pairs : List Pair) (k v : Bytes) (p : Parser) (c : ℕ)
    → OnValue limit pairs k v on_value p
    → length v < 1024
    → (p' : Parser) × (on_value_char p c ≡ ok (next p'))
      × OnValue limit pairs k (v ++ c ∷ []) on_value p'
unfolding on_value_char
value_char limit pairs k v p c o fits =
    let small : p.value_index < 1024 = omega (arith, o.value_count, fits) in
    let q : Query = record (current p) { value = update (current p).value p.value_index c } in
    (
      record p { info = set_current p q; value_index = p.value_index + 1 },
      rw (lt→leb_false p.value_index 1024 small, write_value_lem p c small) refl,
      record {
        limit_same = o.limit_same;
        entries_count = o.entries_count;
        entries =
            update-Entries p.info.queries p.info.queries_length q 0 pairs
              (omega (arith, o.entries_count)) o.entries;
        at_state = o.at_state;
        key_none = o.key_none;
        value_count = omega (arith, o.value_count, length-append v (c ∷ []));
        key = subst (λ x. Spells x.key 0 k) (sym (current-set p q)) o.key;
        key_end = subst (λ x. x.key (length k) ≡ 0) (sym (current-set p q)) o.key_end;
        value =
            subst (λ x. Spells x.value 0 (v ++ c ∷ [])) (sym (current-set p q))
              (Spells-snoc (current p).value p.value_index c 0 v (omega (arith, o.value_count))
                o.value);
        room = o.room;
      },
    )
