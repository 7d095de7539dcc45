-- ===== src/HttpServer/Connections/Slots.antt =====
-- The invariant of the slots of server/libs/httpserver.c.
pub mod Updates
use pal_ft.Base.{
  one_if, exited, ℕ, zero, suc, ◌+◌, ◌-◌, ◌*◌, ◌≤◌, ◌<◌, ◌≡◌, refl, sym, ap, subst, ◌∙◌, ◌⊎◌, inl,
  inr, Option, none, some, some-injective, List, [], ◌∷◌, ◌++◌, arith, length, length-append,
  length-set, length-replicate, replicate, set, get_elem?, get_elem?-set_self, get_elem?-set_ne,
  Bool, true, false, ◌==◌, ltb, ◌&&◌, not, ==_iff, ==_refl, lt→ltb, if◌then◌else◌, Bool-cases,
  Option-cases, Outcome, ok, ok-injective, fault, ◌>>=◌, deref,
}
use pal_ft.HttpServer.Connections.{
  is_one, Client, Pool, empty_client, httpserver_start_server, first_zero, first_nonzero,
  new_entries, grow_pool, write_entry, select_position, add_available_socket, update_client,
  httpserver_disconnect_client, accept_client, plus_one, minus_one,
}
use pal_ft.HttpServer.Connections.Counts.{
  uses, remove, uses-append, uses-set, uses-remove, length-remove, uses-le-length,
  length-new_entries, uses-new_entries, zero-new_entries, first_zero_cases, first_nonzero_cases,
}
use pal_ft.HttpServer.Connections.Marks.{Marked, append-Marked}
use pal_ft.Libc.{ℤ, pos, negsuc}

-- The connections that are open have the slots `open`: each other slot is available once, and each
-- open one is not, which the sockets say, too.
pub record IsSound {V : Type 0} (p : Pool V) (open_slots : List ℕ) : Type 0 where
  pub sockets_size : length p.sockets ≡ p.sockets_capacity
  pub available_size : length p.available_sockets ≡ p.sockets_capacity
  pub positive : 1 ≤ p.sockets_capacity
  pub counted : p.sockets_length ≡ pos (length open_slots)
  pub zeros : uses 0 p.available_sockets ≡ length open_slots
  pub each :
      (v : ℕ)
      → uses (suc v) p.available_sockets + uses v open_slots ≡ one_if (ltb v p.sockets_capacity)
  pub marked : Marked p.sockets open_slots

-- An entry that is read is in bounds.
get_elem?-inside :
    {A : Type 0} (xs : List A) (i : ℕ) {a : A} → get_elem? xs i ≡ some a → i < length xs
get_elem?-inside [] i h = cc
get_elem?-inside (x ∷ xs) zero h = omega arith
get_elem?-inside (x ∷ xs) (suc i) h = omega (arith, get_elem?-inside xs i h)

get_elem?-some :
    {A : Type 0} (xs : List A) (i : ℕ) → i < length xs → (a : A) × (get_elem? xs i ≡ some a)
get_elem?-some [] i h = absurd (omega arith)
get_elem?-some (x ∷ xs) zero h = (x, refl)
get_elem?-some (x ∷ xs) (suc i) h = get_elem?-some xs i (omega arith)

no_entry : {A : Type 0} (v : ℕ) (c : A) → ¬ (get_elem? [] v ≡ some c)
no_entry v c h = cc

module _ {V : Type 0} where
  no_start : {p : Pool V} → ¬ (exited 1 ≡ ok p)
  no_start h = cc

  pub start-IsSound : (init : ℤ) (p : Pool V) → httpserver_start_server init ≡ ok p → IsSound p []
  unfolding httpserver_start_server
  start-IsSound init p h = elim (Bool-cases (is_one init)) [
    | inl e ↦ absurd (no_start (rw e at h))
    | inr e ↦
        subst (λ q. IsSound q []) (ok-injective (rw e at h))
          (record {
            sockets_size = refl;
            available_size = refl;
            positive = omega arith;
            counted = refl;
            zeros = refl;
            each = λ v. ground arith;
            marked =
                append-Marked [] [] 1 (λ v c none_there. absurd (no_entry v c none_there))
                  (λ w h. refl);
          })
  ]

  write_entry_lem :
      (p : Pool V) (i v : ℕ)
      → i < length p.available_sockets
      → write_entry p i v ≡ ok (record p { available_sockets = set p.available_sockets i v })
  unfolding write_entry
  write_entry_lem p i v h = rw (lt→ltb i (length p.available_sockets) h)

  update_client_lem :
      (p : Pool V) (i : ℕ) (f : Client V → Client V)
      → i < length p.sockets
      → (c : Client V) × (update_client p i f ≡ ok (record p { sockets = set p.sockets i (f c) }))
  unfolding update_client
  update_client_lem p i f h = let (c, e) = get_elem?-some p.sockets i h in (c, rw e refl)

-- What `select_position` makes of a pool: a slot that is not in use is no longer available.
record Selected {V : Type 0} (p : Pool V) (open_slots : List ℕ) (i : ℕ) (q : Pool V) : Type 0 where
  sockets_size : length q.sockets ≡ q.sockets_capacity
  available_size : length q.available_sockets ≡ q.sockets_capacity
  inside : i < q.sockets_capacity
  same_count : q.sockets_length ≡ pos (length open_slots)
  zeros : uses 0 q.available_sockets ≡ suc (length open_slots)
  unused : uses i open_slots ≡ 0
  each :
      (v : ℕ)
      → uses (suc v) q.available_sockets + uses v (i ∷ open_slots)
        ≡ one_if (ltb v q.sockets_capacity)
  marked : Marked q.sockets open_slots

take_entry :
    {V : Type 0} (p : Pool V) (open_slots : List ℕ) (k v : ℕ)
    → IsSound p open_slots
    → get_elem? p.available_sockets k ≡ some (suc v)
    → Selected p open_slots v (record p { available_sockets = set p.available_sockets k 0 })
take_entry p open_slots k v s there =
    let here = uses-set (suc v) p.available_sockets k (suc v) 0 there in
    let sum = s.each v in
    record {
      sockets_size = s.sockets_size;
      available_size = length-set p.available_sockets k 0 ∙ s.available_size;
      inside = ground (arith, here, sum);
      same_count = s.counted;
      zeros = ground (arith, uses-set 0 p.available_sockets k (suc v) 0 there, s.zeros);
      unused = ground (arith, here, sum);
      each = λ w. ground (arith, uses-set (suc w) p.available_sockets k (suc v) 0 there, s.each w);
      marked = s.marked;
    }

get_elem?-append :
    {A : Type 0} (xs ys : List A) (a : A) → get_elem? (xs ++ (a ∷ ys)) (length xs) ≡ some a
get_elem?-append [] ys a = refl
get_elem?-append (x ∷ xs) ys a = get_elem?-append xs ys a

new_entries_first :
    (xs : List ℕ) (i n : ℕ)
    → 1 ≤ n
    → length xs ≡ i
    → get_elem? (xs ++ new_entries i n) i ≡ some (suc i)
unfolding new_entries
new_entries_first xs i zero h e = absurd (omega arith)
new_entries_first xs i (suc n) h e =
    subst (λ k. get_elem? (xs ++ ((i + 1) ∷ new_entries (i + 1) n)) k ≡ some (suc i)) e
      (get_elem?-append xs (new_entries (i + 1) n) (i + 1) ∙ ap some (omega arith))

-- A pool that has no slot left gets as many again, and gives the first of the new ones.
grown :
    {V : Type 0} (p : Pool V) (open_slots : List ℕ)
    → IsSound p open_slots
    → uses 0 p.available_sockets ≡ length p.available_sockets
    → ((v : ℕ) → uses (suc v) p.available_sockets ≡ 0)
    → (write_entry (grow_pool p) (length open_slots) 0
        ≡ ok (record (grow_pool p) {
          available_sockets = set (grow_pool p).available_sockets (length open_slots) 0;
        }))
      × Selected p open_slots (length open_slots) (record (grow_pool p) {
        available_sockets = set (grow_pool p).available_sockets (length open_slots) 0;
      })
unfolding grow_pool
grown {V} p open_slots s all none_there =
    let full : length open_slots ≡ p.sockets_capacity =
      omega (arith, all, s.zeros, s.available_size) in
    let entries : List ℕ =
      p.available_sockets ++ new_entries p.sockets_capacity p.sockets_capacity in
    let size : length entries ≡ p.sockets_capacity * 2 = omega (
      arith,
      length-append p.available_sockets (new_entries p.sockets_capacity p.sockets_capacity),
      s.available_size,
      length-new_entries p.sockets_capacity p.sockets_capacity,
    ) in
    let first : get_elem? entries (length open_slots) ≡ some (suc (length open_slots)) =
      subst (λ k. get_elem? entries k ≡ some (suc k)) (sym full)
        (new_entries_first p.available_sockets p.sockets_capacity p.sockets_capacity s.positive
          s.available_size) in
    (
      write_entry_lem (grow_pool p) (length open_slots) 0 (omega (arith, size, full, s.positive)),
      record {
        sockets_size =
            length-append p.sockets (replicate p.sockets_capacity empty_client)
            ∙ omega (
              arith,
              s.sockets_size,
              length-replicate {A = Client V} p.sockets_capacity empty_client,
            );
        available_size = length-set entries (length open_slots) 0 ∙ size;
        inside = omega (arith, full, s.positive);
        same_count = s.counted;
        zeros = ground (
          arith,
          uses-set 0 entries (length open_slots) (suc (length open_slots)) 0 first,
          uses-append 0 p.available_sockets (new_entries p.sockets_capacity p.sockets_capacity),
          zero-new_entries p.sockets_capacity p.sockets_capacity,
          s.zeros,
        );
        unused = ground (arith, s.each (length open_slots), full);
        each = λ w. ground (
          arith,
          uses-set (suc w) entries (length open_slots) (suc (length open_slots)) 0 first,
          uses-append (suc w) p.available_sockets
              (new_entries p.sockets_capacity p.sockets_capacity),
          uses-new_entries w p.sockets_capacity p.sockets_capacity,
          none_there w,
          s.each w,
          full,
        );
        marked =
            append-Marked p.sockets open_slots p.sockets_capacity s.marked
              (λ w behind. ground (arith, s.each w, behind, s.sockets_size));
      },
    )
