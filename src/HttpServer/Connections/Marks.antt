-- ===== src/HttpServer/Connections/Marks.antt =====
-- The mark of a slot in server/libs/httpserver.c that is not open: its socket is -1.
use pal_ft.Base.{
  ℕ, zero, suc, ◌≤◌, ◌<◌, ◌≡◌, ◌≢◌, sym, ap, subst, ◌∙◌, ◌⊎◌, inl, inr, some, some-injective, List,
  [], ◌∷◌, ◌++◌, arith, length, replicate, set, get_elem?, get_elem?-set_self, get_elem?-set_ne,
  ◌==◌, ==_iff, Bool-cases,
}
use pal_ft.HttpServer.Connections.{Client, empty_client, is_closed}
use pal_ft.HttpServer.Connections.Counts.{uses}

abbrev pub Marked : {V : Type 0} → List (Client V) → List ℕ → Type 0
Marked {V} sockets open_slots =
    (v : ℕ) (c : Client V)
    → get_elem? sockets v ≡ some c
    → is_closed c.socket ≡ (uses v open_slots == 0)

module _ {V : Type 0} where
  pub set-Marked :
      (sockets : List (Client V)) (open_slots open_slots' : List ℕ) (i : ℕ) (c : Client V)
      → i < length sockets
      → Marked sockets open_slots
      → is_closed c.socket ≡ (uses i open_slots' == 0)
      → ((w : ℕ) → w ≢ i → uses w open_slots' ≡ uses w open_slots)
      → Marked (set sockets i c) open_slots'
  set-Marked sockets open_slots open_slots' i c inside marked here others v d there =
      elim (Bool-cases (v == i)) [
        | inl e ↦
            let same : v ≡ i = (==_iff v i).0 e in
            let stored : c ≡ d = some-injective _ _ (
              sym (get_elem?-set_self sockets i c inside)
              ∙ subst (λ k. get_elem? (set sockets i c) k ≡ some d) same there) in
            subst (λ x. is_closed x.socket ≡ (uses v open_slots' == 0)) stored
              (subst (λ k. is_closed c.socket ≡ (uses k open_slots' == 0)) (sym same) here)
        | inr e ↦
            let apart : v ≢ i = λ same. ground (arith, e, same) in
            marked v d (sym (get_elem?-set_ne sockets c (λ same. apart (sym same))) ∙ there)
            ∙ ap (λ n. n == 0) (sym (others v apart))
      ]

  replicate-cases :
      (n v : ℕ) (c : Client V) → get_elem? (replicate n empty_client) v ≡ some c → empty_client ≡ c
  replicate-cases zero v c h = cc
  replicate-cases (suc n) zero c h = some-injective _ _ h
  replicate-cases (suc n) (suc v) c h = replicate-cases n v c h

  append_cases :
      (sockets : List (Client V)) (n v : ℕ) (c : Client V)
      → get_elem? (sockets ++ replicate n empty_client) v ≡ some c
      → (get_elem? sockets v ≡ some c) ⊎ ((length sockets ≤ v) × (empty_client ≡ c))
  append_cases [] n v c h = inr (omega arith, replicate-cases n v c h)
  append_cases (x ∷ sockets) n zero c h = inl h
  append_cases (x ∷ sockets) n (suc v) c h = elim (append_cases sockets n v c h) [
    | inl there ↦ inl there
    | inr (behind, e) ↦ inr (omega (arith, behind), e)
  ]

  pub append-Marked :
      (sockets : List (Client V)) (open_slots : List ℕ) (n : ℕ)
      → Marked sockets open_slots
      → ((w : ℕ) → length sockets ≤ w → uses w open_slots ≡ 0)
      → Marked (sockets ++ replicate n empty_client) open_slots
  unfolding empty_client
  append-Marked sockets open_slots n marked unused v c h = elim (append_cases sockets n v c h) [
    | inl there ↦ marked v c there
    | inr (behind, e) ↦
        subst (λ x. is_closed x.socket ≡ (uses v open_slots == 0)) e
          (sym (ap (λ k. k == 0) (unused v behind)))
  ]
