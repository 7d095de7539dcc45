-- ===== src/QueryParser.antt =====
-- server/libs/queryparser.c: the parser of the query string of a path, one character at a time.
-- The arrays of a query are functions of the index; a write outside `key[64]` or `value[1024]` is a
-- fault. Log messages are left out.
pub mod Room
pub mod Ends
pub mod Spelled
pub mod Steps
pub mod Turns
pub mod RoundTrip
use pal_ft.Base.{
  ℕ, zero, suc, ◌+◌, Bool, not, ◌&&◌, Option, none, some, [], ◌∷◌, ltb, leb, ◌==◌, if◌then◌else◌,
  Outcome, ok, fault, ◌>>=◌,
}
use pal_ft.Libc.{Bytes, str_eq}

abbrev pub key_size : ℕ
key_size = 64

abbrev pub value_size : ℕ
value_size = 1024

-- struct qparser_query
pub record Query : Type 0 where
  pub key : ℕ → ℕ
  pub value : ℕ → ℕ

-- struct qparser_info
pub record Info : Type 0 where
  pub length : ℕ
  pub queries_length : ℕ
  pub queries : ℕ → Query

-- The values of `state`: -1, QUERY_ON_KEY, QUERY_ON_KEY_VALUE_END, QUERY_ON_VALUE and
-- QUERY_ON_VALUE_KEY_END.
pub data State : Type 0 where
  initial on_key on_key_value_end on_value on_value_key_end : State

-- The variables of `qparser_parse`.
pub record Parser : Type 0 where
  pub info : Info
  pub key_index : ℕ
  pub value_index : ℕ
  pub state : State

-- One round of the loop goes on, or returns from `qparser_parse`.
pub data Flow : Type 0 where
  next : Parser → Flow
  return : Parser → Flow

-- The `memset` of `qparser_init`.
abbrev pub zeros : ℕ → ℕ
zeros i = 0

abbrev pub empty_query : Query
empty_query = record { key = zeros; value = zeros }

unfoldable pub qparser_init : ℕ → Info
qparser_init length = record { length = length; queries_length = 0; queries = λ i. empty_query }

unfoldable pub update {ℓ} : {A : Type ℓ} → (ℕ → A) → ℕ → A → ℕ → A
update f i a j = if i == j then a else f j

abbrev pub current : Parser → Query
current p = p.info.queries p.info.queries_length

abbrev pub set_current : Parser → Query → Info
set_current p q = record (p.info) { queries = update p.info.queries p.info.queries_length q }

-- `queries[queries_length].key[key_index] = c`
unfoldable pub write_key : Parser → ℕ → Outcome Parser
write_key p c =
    if ltb p.key_index key_size
    then ok (record p {
      info = set_current p (record (current p) { key = update (current p).key p.key_index c });
    })
    else fault

-- `queries[queries_length].value[value_index] = c`
unfoldable pub write_value : Parser → ℕ → Outcome Parser
write_value p c =
    if ltb p.value_index value_size
    then ok (record p {
      info =
          set_current p (record (current p) { value = update (current p).value p.value_index c });
    })
    else fault

-- A character of a key.
unfoldable pub on_key_char : Parser → ℕ → Outcome Flow
on_key_char p c =
    if leb key_size p.key_index
    then ok (return p)
    else (do p' ← write_key p c; ok (next (record p' { key_index = p'.key_index + 1 })))

-- The first character of the key after a `&`.
unfoldable pub on_next_key : Parser → ℕ → Outcome Flow
on_next_key p c = if leb key_size p.key_index then ok (return p) else (do
  p₁ ← write_value p 0
  let p₂ : Parser = record p₁ {
    state = on_key;
    value_index = 0;
    info = record (p₁.info) { queries_length = p₁.info.queries_length + 1 };
  }
  if leb p₂.info.length p₂.info.queries_length then ok (return p₂) else on_key_char p₂ c)

-- A character of a value.
unfoldable pub on_value_char : Parser → ℕ → Outcome Flow
on_value_char p c =
    if leb value_size p.value_index
    then ok (return p)
    else (do p' ← write_value p c; ok (next (record p' { value_index = p'.value_index + 1 })))

-- The first character after a `=`.
unfoldable pub on_next_value : Parser → ℕ → Outcome Flow
on_next_value p c =
    if leb value_size p.value_index
    then ok (return p)
    else (do p' ← write_key p 0; on_value_char (record p' { state = on_value; key_index = 0 }) c)

-- The `default` case of the switch on the character.
unfoldable pub on_char : State → Parser → ℕ → Outcome Flow
on_char initial p c = ok (next p)
on_char on_key p c = on_key_char p c
on_char on_key_value_end p c = on_next_key p c
on_char on_value p c = on_value_char p c
on_char on_value_key_end p c = on_next_value p c

-- One round of the loop.
unfoldable pub step : Parser → ℕ → Outcome Flow
step p c =
    if leb p.info.length p.info.queries_length
    then ok (return p)
    else if c == b'?'
    then ok (next (record p { state = on_key }))
    else if c == b'='
    then ok (next (record p { state = on_value_key_end }))
    else if c == b'&'
    then ok (next (record p { state = on_key_value_end }))
    else on_char p.state p c

-- After the loop.
unfoldable pub finish : Parser → Outcome Info
finish p =
    if not (ltb p.info.queries_length p.info.length)
    then fault
    else if (current p).key 0 == 0
    then ok p.info
    else if leb key_size p.key_index
    then ok p.info
    else (do
      p' ← write_value p 0
      ok (record (p'.info) { queries_length = p'.info.queries_length + 1 }))

-- The rest of the function after a round.
abbrev pub follow : Flow → (Parser → Outcome Info) → Outcome Info
follow (next p) k = k p
follow (return p) k = ok p.info

-- The loop, and what follows it.
unfoldable pub run : Parser → Bytes → Outcome Info
run p [] = finish p
run p (c ∷ url) = step p c >>= λ flow. follow flow (λ p'. run p' url)

unfoldable pub qparser_parse : Info → Bytes → Outcome Info
qparser_parse info url =
    run (record { info = info; key_index = 0; value_index = 0; state = initial }) url

-- The C string in an array of `n` bytes from `i` on.
unfoldable pub c_string : ℕ → (ℕ → ℕ) → ℕ → Bytes
c_string zero buffer i = []
c_string (suc n) buffer i =
    let rest = c_string n buffer (i + 1) in if buffer i == 0 then [] else buffer i ∷ rest

abbrev pub key_of : Query → Bytes
key_of q = c_string key_size q.key 0

-- `->value`, as a C string
abbrev pub value_of : Query → Bytes
value_of q = c_string value_size q.value 0

unfoldable pub matches : Bytes → Query → Bool
matches key q = not (q.key 0 == 0) && str_eq (key_of q) key

-- The loop of `qparser_get_query` with `n` queries left.
unfoldable pub find_query : (ℕ → Query) → ℕ → ℕ → Bytes → Option Query
find_query queries i zero key = none
find_query queries i (suc n) key =
    let rest = find_query queries (i + 1) n key in
    if matches key (queries i) then some (queries i) else rest

unfoldable pub qparser_get_query : Info → Bytes → Option Query
qparser_get_query info key = find_query info.queries 0 info.queries_length key
