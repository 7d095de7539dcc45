-- ===== src/QueryParser/Ends.antt =====
-- server/libs/queryparser.c: every value that is found has its terminator inside the buffer.
use pal_ft.Base.{
  ℕ, zero, suc, ◌+◌, ◌≤◌, ◌<◌, ◌≡◌, refl, subst, sym, Bool, true, false, some, some-injective, [],
  ◌∷◌, arith, length, leb, ltb, ltb→lt, ◌==◌, Bool-cases, inl, inr, not, if◌then◌else◌, Outcome, ok,
  fault, Ensures, >>=-Ensures_of, if-Ensures, Ensures-ok,
}
use pal_ft.Libc.{Bytes}
use pal_ft.QueryParser.{
  Query, Info, Parser, Flow, next, return, follow, State, initial, on_key, on_key_value_end,
  on_value, on_value_key_end, key_size, value_size, current, set_current, update, write_key,
  write_value, on_key_char, on_next_key, on_value_char, on_next_value, on_char, step, finish, run,
  qparser_init, qparser_parse, c_string, value_of, matches, find_query, qparser_get_query,
}

-- A terminator inside the buffer of a value.
HasEnd : Query → Type 0
HasEnd q = (j : ℕ) × (j < 1024) × (q.value j ≡ 0)

Ended : Info → Type 0
Ended info = (i : ℕ) → i < info.queries_length → HasEnd (info.queries i)

FlowEnded : Flow → Type 0
FlowEnded (next p) = Ended p.info
FlowEnded (return p) = Ended p.info

update_other : {A : Type 0} (f : ℕ → A) (i : ℕ) (a : A) (j : ℕ) → j < i → update f i a j ≡ f j
unfolding update
update_other f i a j h = ground arith

update_self : {A : Type 0} (f : ℕ → A) (i : ℕ) (a : A) → update f i a i ≡ a
unfolding update
update_self f i a = ground arith

set_current-Ended : (p : Parser) (q : Query) → Ended p.info → Ended (set_current p q)
unfolding Ended
set_current-Ended p q h i lt =
    subst HasEnd (sym (update_other p.info.queries p.info.queries_length q i lt)) (h i lt)

if-Ensures_eq :
    {A : Type 0} (P : A → Type 0) (test : Bool) (x y : Outcome A)
    → (test ≡ true → Ensures P x)
    → (test ≡ false → Ensures P y)
    → Ensures P (if test then x else y)
if-Ensures_eq P true x y h k = h refl
if-Ensures_eq P false x y h k = k refl

write_key-Ended :
    (p : Parser) (c : ℕ) → Ended p.info → Ensures (λ p'. Ended p'.info) (write_key p c)
unfolding write_key Ensures
write_key-Ended p c h = if-Ensures _ (ltb p.key_index 64) _ fault (set_current-Ended p _ h) tt

-- A write of the terminator: the query that is written has its end, too.
write_value-Ended :
    (p : Parser) (c : ℕ) → Ended p.info → Ensures (λ p'. Ended p'.info) (write_value p c)
unfolding write_value Ensures
write_value-Ended p c h = if-Ensures _ (ltb p.value_index 1024) _ fault (set_current-Ended p _ h) tt

Closed : Parser → Type 0
Closed p = (i : ℕ) → i < p.info.queries_length + 1 → HasEnd (p.info.queries i)

closed_query :
    (p : Parser)
    → p.value_index < 1024
    → HasEnd (record (current p) { value = update (current p).value p.value_index 0 })
unfolding HasEnd
closed_query p small = (p.value_index, small, update_self (current p).value p.value_index 0)

set_current-Closed :
    (p : Parser) (q : Query)
    → Ended p.info
    → HasEnd q
    → Closed (record p { info = set_current p q })
unfolding Closed Ended
set_current-Closed p q h end i lt = elim (Bool-cases (ltb i p.info.queries_length)) [
  | inl e ↦
      subst HasEnd (sym (update_other p.info.queries p.info.queries_length q i (ltb→lt _ _ e)))
        (h i (ltb→lt _ _ e))
  | inr e ↦
      subst (λ k. HasEnd (update p.info.queries p.info.queries_length q k)) (ground (arith, lt, e))
        (subst HasEnd (sym (update_self p.info.queries p.info.queries_length q)) end)
]

write_value-Closed : (p : Parser) → Ended p.info → Ensures Closed (write_value p 0)
unfolding write_value Ensures
write_value-Closed p h =
    if-Ensures_eq _ (ltb p.value_index 1024) _ fault
      (λ e. set_current-Closed p _ h (closed_query p (ltb→lt _ _ e))) (λ _. tt)

on_key_char-Ended : (p : Parser) (c : ℕ) → Ended p.info → Ensures FlowEnded (on_key_char p c)
unfolding on_key_char Ensures FlowEnded
on_key_char-Ended p c h =
    if-Ensures _ (leb key_size p.key_index) (ok (return p)) _ h
      (>>=-Ensures_of _ _ (write_key p c) _ (write_key-Ended p c h) λ p' h'. h')

on_value_char-Ended : (p : Parser) (c : ℕ) → Ended p.info → Ensures FlowEnded (on_value_char p c)
unfolding on_value_char Ensures FlowEnded
on_value_char-Ended p c h =
    if-Ensures _ (leb value_size p.value_index) (ok (return p)) _ h
      (>>=-Ensures_of _ _ (write_value p c) _ (write_value-Ended p c h) λ p' h'. h')

on_next_value-Ended : (p : Parser) (c : ℕ) → Ended p.info → Ensures FlowEnded (on_next_value p c)
unfolding on_next_value Ensures FlowEnded
on_next_value-Ended p c h = if-Ensures _ (leb value_size p.value_index) (ok (return p)) _ h (
    >>=-Ensures_of _ _ (write_key p 0) _ (write_key-Ended p 0 h)
      λ p' h'. on_value_char-Ended (record p' { state = on_value; key_index = 0 }) c h')

on_next_key-Ended : (p : Parser) (c : ℕ) → Ended p.info → Ensures FlowEnded (on_next_key p c)
unfolding on_next_key Ensures FlowEnded Closed Ended
on_next_key-Ended p c h = if-Ensures _ (leb key_size p.key_index) (ok (return p)) _ h (
    >>=-Ensures_of Closed _ (write_value p 0) _ (write_value-Closed p h) λ p' h'.
      if-Ensures _ (leb p'.info.length (p'.info.queries_length + 1)) (ok (return _)) _ h'
        (on_key_char-Ended _ c h'))

on_char-Ended :
    (state : State) (p : Parser) (c : ℕ) → Ended p.info → Ensures FlowEnded (on_char state p c)
unfolding on_char Ensures FlowEnded
on_char-Ended initial p c h = h
on_char-Ended on_key p c h = on_key_char-Ended p c h
on_char-Ended on_key_value_end p c h = on_next_key-Ended p c h
on_char-Ended on_value p c h = on_value_char-Ended p c h
on_char-Ended on_value_key_end p c h = on_next_value-Ended p c h

step-Ended : (p : Parser) (c : ℕ) → Ended p.info → Ensures FlowEnded (step p c)
unfolding step Ensures FlowEnded
step-Ended p c h = if-Ensures _ (leb p.info.length p.info.queries_length) (ok (return p)) _ h (
    if-Ensures _ (c == b'?') (ok (next (record p { state = on_key }))) _ h (
      if-Ensures _ (c == b'=') (ok (next (record p { state = on_value_key_end }))) _ h (
        if-Ensures _ (c == b'&') (ok (next (record p { state = on_key_value_end }))) _ h
          (on_char-Ended p.state p c h))))

finish-Ended : (p : Parser) → Ended p.info → Ensures Ended (finish p)
unfolding finish Ensures Closed Ended
finish-Ended p h = if-Ensures _ (not (ltb p.info.queries_length p.info.length)) fault _ tt (
    if-Ensures _ ((current p).key 0 == 0) (ok p.info) _ h (
      if-Ensures _ (leb key_size p.key_index) (ok p.info) _ h
        (>>=-Ensures_of Closed _ (write_value p 0) _ (write_value-Closed p h) λ p' h'. h')))

follow-Ended :
    (flow : Flow) (k : Parser → Outcome Info)
    → FlowEnded flow
    → ((p : Parser) → Ended p.info → Ensures Ended (k p))
    → Ensures Ended (follow flow k)
unfolding FlowEnded Ensures
follow-Ended (next p) k f h = h p f
follow-Ended (return p) k f h = f

run-Ended : (p : Parser) (url : Bytes) → Ended p.info → Ensures Ended (run p url)
unfolding run
run-Ended p [] h = finish-Ended p h
run-Ended p (c ∷ url) h =
    >>=-Ensures_of FlowEnded _ (step p c) _ (step-Ended p c h)
      λ flow f. follow-Ended flow _ f λ p' h'. run-Ended p' url h'

c_string-length :
    (n : ℕ) (buffer : ℕ → ℕ) (i k : ℕ)
    → k < n
    → buffer (i + k) ≡ 0
    → length (c_string n buffer i) ≤ k
unfolding c_string
c_string-length zero buffer i k h e = absurd (omega arith)
c_string-length (suc n) buffer i zero h e =
    let here : buffer i ≡ 0 = subst (λ m. buffer m ≡ 0) (omega arith) e in ground (arith, here)
c_string-length (suc n) buffer i (suc k) h e =
    let rest =
      c_string-length n buffer (i + 1) k (omega arith)
        (subst (λ m. buffer m ≡ 0) (omega arith) e) in
    ground (arith, rest)

find_query-HasEnd :
    (queries : ℕ → Query) (i n : ℕ) (key : Bytes) (q : Query)
    → ((j : ℕ) → j < i + n → HasEnd (queries j))
    → find_query queries i n key ≡ some q
    → HasEnd q
unfolding find_query
find_query-HasEnd queries i zero key q ended h = cc
find_query-HasEnd queries i (suc n) key q ended h = elim (Bool-cases (matches key (queries i))) [
  | inl e ↦ subst HasEnd (some-injective _ _ (rw e at h)) (ended i (omega arith))
  | inr e ↦
      find_query-HasEnd queries (i + 1) n key q (λ j lt. ended j (omega (arith, lt))) (rw e at h)
]

value_of-length : (q : Query) → HasEnd q → length (value_of q) ≤ 1023
unfolding HasEnd
value_of-length q (j, inside, end) = omega (
  arith,
  inside,
  c_string-length 1024 q.value 0 j inside (subst (λ m. q.value m ≡ 0) (omega arith) end),
)

-- If a path is parsed without an access out of bounds, then every value that a key finds
-- afterwards has its terminator inside the buffer: it is of up to 1023 bytes.
pub qparser_get_query-length :
    (limit : ℕ) (url key : Bytes) (info : Info) (q : Query)
    → qparser_parse (qparser_init limit) url ≡ ok info
    → qparser_get_query info key ≡ some q
    → length (value_of q) ≤ 1023
unfolding qparser_parse qparser_init qparser_get_query Ended
qparser_get_query-length limit url key info q parsed found =
    let ended = Ensures-ok Ended _ (run-Ended _ url (λ i lt. absurd (omega (arith, lt)))) parsed in
    value_of-length q (
      find_query-HasEnd info.queries 0 info.queries_length key q
        (λ k lt. ended k (omega (arith, lt))) found)
