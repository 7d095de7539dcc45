-- ===== src/HttpServer/Connections/Slots/Updates.antt =====
-- The operations of server/libs/httpserver.c that take a slot and give one back.
use pal_ft.Base.{
  ℕ, suc, ◌+◌, ◌-◌, ◌≤◌, ◌<◌, ◌≡◌, refl, sym, ap, ◌∙◌, inl, inr, none, some, List, ◌∷◌, arith,
  length, length-set, set, false, ok,
}
use pal_ft.HttpServer.Connections.{
  Client, Pool, first_nonzero, grow_pool, write_entry, select_position, add_available_socket,
  httpserver_disconnect_client, accept_client, plus_one, minus_one,
}
use pal_ft.HttpServer.Connections.Counts.{
  uses, remove, uses-set, uses-remove, length-remove, uses-le-length, first_zero_cases,
  first_nonzero_cases,
}
use pal_ft.HttpServer.Connections.Marks.{set-Marked}
use pal_ft.HttpServer.Connections.Slots.{
  IsSound, Selected, take_entry, grown, write_entry_lem, update_client_lem, get_elem?-inside,
}
use pal_ft.Libc.{pos, negsuc}

select_position_grown :
    {V : Type 0} (p q : Pool V) (n : ℕ)
    → first_nonzero p.sockets_capacity p.available_sockets 0 ≡ ok none
    → p.sockets_length ≡ pos n
    → write_entry (grow_pool p) n 0 ≡ ok q
    → select_position p ≡ ok (n, q)
unfolding select_position
select_position_grown p q n missing counted written = rw (missing, counted, written) refl

select_position-Selected :
    {V : Type 0} (p : Pool V) (open_slots : List ℕ)
    → IsSound p open_slots
    → (i : ℕ) × (q : Pool V) × (select_position p ≡ ok (i, q)) × Selected p open_slots i q
unfolding select_position
select_position-Selected p open_slots s =
    elim (first_nonzero_cases p.sockets_capacity p.available_sockets 0 s.available_size) [
      | inl (k, v, found, there) ↦
          let plain : 0 + k ≡ k = omega arith in
          let index : suc v - 1 ≡ v = omega arith in
          (
            v,
            record p { available_sockets = set p.available_sockets k 0 },
            rw
                (
                  found,
                  plain,
                  write_entry_lem p k 0 (get_elem?-inside p.available_sockets k there),
                  index,
                )
                refl,
            take_entry p open_slots k v s there,
          )
      | inr (missing, all, none_there) ↦
          let (written, selected) = grown p open_slots s all none_there in
          (
            length open_slots,
            record (grow_pool p) {
              available_sockets = set (grow_pool p).available_sockets (length open_slots) 0;
            },
            select_position_grown p _ (length open_slots) missing s.counted written,
            selected,
          )
    ]

-- A connection that is accepted gets a slot that none of the open ones has.
pub accept_client-IsSound :
    {V : Type 0} (p : Pool V) (open_slots : List ℕ) (thread : ℕ)
    → IsSound p open_slots
    → (i : ℕ) × (p' : Pool V) × (accept_client p thread ≡ ok (i, p'))
      × (uses i open_slots ≡ 0)
      × IsSound p' (i ∷ open_slots)
unfolding accept_client
accept_client-IsSound {V} p open_slots thread s =
    let (i, q, selected, facts) = select_position-Selected p open_slots s in
    let fresh : Client V = record {
      thread = some thread;
      thread_data = some i;
      socket = pos 0;
      upgraded = false;
      user_data = none;
    } in
    let (c, updated) =
      update_client_lem (record q { sockets_length = plus_one q.sockets_length }) i (λ _. fresh)
        (omega (arith, facts.inside, facts.sockets_size)) in
    (
      i,
      record q { sockets_length = plus_one q.sockets_length; sockets = set q.sockets i fresh },
      rw (selected, updated) refl,
      facts.unused,
      record {
        sockets_size = length-set q.sockets i fresh ∙ facts.sockets_size;
        available_size = facts.available_size;
        positive = omega (arith, facts.inside);
        counted = ap plus_one facts.same_count ∙ ap pos (omega arith);
        zeros = facts.zeros;
        each = facts.each;
        marked =
            set-Marked q.sockets open_slots (i ∷ open_slots) i fresh
              (omega (arith, facts.inside, facts.sockets_size)) facts.marked (ground arith)
              (λ w other. ground (arith, other));
      },
    )

pub httpserver_disconnect_client-IsSound :
    {V : Type 0} (p : Pool V) (open_slots : List ℕ) (i : ℕ)
    → IsSound p open_slots
    → 1 ≤ uses i open_slots
    → (p' : Pool V) × (httpserver_disconnect_client p i ≡ ok p') × IsSound p' (remove i open_slots)
unfolding httpserver_disconnect_client add_available_socket
httpserver_disconnect_client-IsSound {V} p open_slots i s h =
    let inside : i < p.sockets_capacity = ground (arith, s.each i, h) in
    let (c, updated) =
      update_client_lem p i (λ c. record c { socket = negsuc 0; upgraded = false })
        (omega (arith, inside, s.sockets_size)) in
    elim (first_zero_cases p.sockets_capacity p.available_sockets 0 s.available_size) [
      | inr (missing, none_there) ↦
          absurd (omega (arith, none_there, s.zeros, h, uses-le-length i open_slots))
      | inl (k, found, there) ↦
          let plain : 0 + k ≡ k = omega arith in
          let q : Pool V = record p {
            sockets = set p.sockets i (record c { socket = negsuc 0; upgraded = false });
          } in
          (
            record q {
              available_sockets = set p.available_sockets k (i + 1);
              sockets_length = minus_one p.sockets_length;
            },
            rw
                (
                  updated,
                  found,
                  plain,
                  write_entry_lem q k (i + 1) (get_elem?-inside p.available_sockets k there),
                )
                refl,
            record {
              sockets_size =
                  length-set p.sockets i (record c { socket = negsuc 0; upgraded = false })
                  ∙ s.sockets_size;
              available_size = length-set p.available_sockets k (i + 1) ∙ s.available_size;
              positive = s.positive;
              counted = ap minus_one (s.counted ∙ ap pos (sym (length-remove i open_slots h)));
              zeros = ground (
                arith,
                uses-set 0 p.available_sockets k 0 (i + 1) there,
                s.zeros,
                length-remove i open_slots h,
              );
              each = λ w. ground (
                arith,
                uses-set (suc w) p.available_sockets k 0 (i + 1) there,
                s.each w,
                uses-remove i w open_slots h,
              );
              marked =
                  set-Marked p.sockets open_slots (remove i open_slots) i
                    (record c { socket = negsuc 0; upgraded = false })
                    (omega (arith, inside, s.sockets_size)) s.marked
                    (ground (arith, s.each i, uses-remove i i open_slots h))
                    (λ w other. ground (arith, other, uses-remove i w open_slots h));
            },
          )
    ]
