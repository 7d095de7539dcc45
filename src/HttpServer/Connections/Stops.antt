-- ===== src/HttpServer/Connections/Stops.antt =====
-- `httpserver_stop_server` of server/libs/httpserver.c: how many threads it cancels.
use pal_ft.Base.{
  ℕ, suc, ◌+◌, ◌≤◌, ◌≡◌, refl, ap, ◌∙◌, one_if, Bool-cases, inl, inr, some, List, [], ◌∷◌, arith,
  length, get_elem?, ltb, ◌==◌,
}
use pal_ft.HttpServer.Connections.{Client, Pool, is_closed, stop_server}
use pal_ft.HttpServer.Connections.Counts.{uses}
use pal_ft.HttpServer.Connections.Slots.{IsSound}

-- How many of the slots are below a bound.
abbrev below : ℕ → List ℕ → ℕ
below n [] = 0
below n (slot ∷ slots) = one_if (ltb slot n) + below n slots

below_suc : (n : ℕ) (slots : List ℕ) → below (n + 1) slots ≡ below n slots + uses n slots
below_suc n [] = refl
below_suc n (slot ∷ slots) = ground (arith, below_suc n slots)

below_all :
    (n : ℕ) (slots : List ℕ) → ((v : ℕ) → n ≤ v → uses v slots ≡ 0) → below n slots ≡ length slots
below_all n [] h = refl
below_all n (slot ∷ slots) h =
    ground (arith, below_all n slots (λ v big. ground (arith, h v big)), h slot)

below_zero : (slots : List ℕ) → below 0 slots ≡ 0
below_zero [] = refl
below_zero (slot ∷ slots) = ground (arith, below_zero slots)

module _ {V : Type 0} where
  -- From slot `i` on, an open slot is one whose socket is not -1.
  stop_server-below :
      (clients : List (Client V)) (slots : List ℕ) (i : ℕ)
      → ((v : ℕ) (c : Client V)
          → get_elem? clients v ≡ some c
          → is_closed c.socket ≡ (uses (i + v) slots == 0))
      → ((v : ℕ) → uses v slots ≤ 1)
      → length (stop_server clients) + below i slots ≡ below (i + length clients) slots
  unfolding stop_server
  stop_server-below [] slots i marked once =
      let same : below (i + 0) slots ≡ below i slots = ap (λ n. below n slots) (omega arith) in
      omega (arith, same)
  stop_server-below (c ∷ clients) slots i marked once =
      let rest =
        stop_server-below clients slots (i + 1)
          (λ v d there. marked (suc v) d there ∙ ap (λ n. uses n slots == 0) (omega arith)) once in
      let here : is_closed c.socket ≡ (uses i slots == 0) =
        marked 0 c refl ∙ ap (λ n. uses n slots == 0) (omega arith) in
      let same : below (i + 1 + length clients) slots ≡ below (i + suc (length clients)) slots =
        ap (λ n. below n slots) (omega arith) in
      elim (Bool-cases (uses i slots == 0)) [
        | inl e ↦ rw (here, e) (ground (arith, rest, same, below_suc i slots))
        | inr e ↦ rw (here, e) (ground (arith, rest, same, below_suc i slots, once i))
      ]

  pub stop_server-length :
      (p : Pool V) (open_slots : List ℕ)
      → IsSound p open_slots
      → length (stop_server p.sockets) ≡ length open_slots
  stop_server-length p open_slots sound =
      let counted =
        stop_server-below p.sockets open_slots 0
          (λ v c there. sound.marked v c there ∙ ap (λ n. uses n open_slots == 0) (omega arith))
          (λ v. ground (arith, sound.each v)) in
      let bound : below (0 + length p.sockets) open_slots ≡ below p.sockets_capacity open_slots =
        ap (λ n. below n open_slots) (omega (arith, sound.sockets_size)) in
      omega (
        arith,
        counted,
        bound,
        below_zero open_slots,
        below_all p.sockets_capacity open_slots (λ v big. ground (arith, sound.each v)),
      )
