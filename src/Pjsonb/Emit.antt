-- ===== src/Pjsonb/Emit.antt =====
-- What each call of server/libs/pjsonb.c that server/main.c makes adds to the text, while an `int` can
-- count it.
use pal_ft.Base.{
  ℕ, ◌+◌, ◌^◌, ◌<◌, ◌≤◌, ◌≡◌, refl, sym, ap, ◌∙◌, none, some, [], ◌∷◌, ◌++◌, append_assoc, arith,
  le→leb, lt→ltb, length, length-append, ok,
}
use pal_ft.Libc.{Bytes, codes, ℤ, print_int}
use pal_ft.Pjsonb.{
  KeyState, nothing, to_close, Builder, put, set_number, pjsonb_set_int, pjsonb_set_string, array,
  closing, pjsonb_enter_object, pjsonb_leave_object, pjsonb_end, overwrite, replace_last,
}

-- `b'` is `b` with a text added, and with a given state.
pub record Adds (b : Builder) (text : Bytes) (state : KeyState) (b' : Builder) : Type 0 where
  pub string : b'.string ≡ b.string ++ text
  pub position : b'.position ≡ b.position + length text
  pub key_state : b'.key_state ≡ state
  pub kind : b'.kind ≡ b.kind

put_lem :
    (b : Builder) (text : Bytes)
    → b.position + length text ≤ b.allocated
    → b.position + length text < 2 ^ 31
    → put b text ≡ ok (record b { string = b.string ++ text; position = b.position + length text })
unfolding put
put_lem b text h small = rw (le→leb _ _ h, lt→ltb _ _ small)

abbrev pub string_field : Bytes → Bytes → Bytes
string_field key value = codes "\"" ++ (key ++ (codes "\":\"" ++ (value ++ codes "\",")))

pub set_string-Adds :
    (b : Builder) (key value : Bytes)
    → b.position + length (string_field key value) < 2 ^ 31
    → (b' : Builder) × (pjsonb_set_string b (some key) value ≡ ok b')
      × Adds b (string_field key value) to_close b'
unfolding pjsonb_set_string put
set_string-Adds b key value small =
    let total : length (string_field key value) ≡ length key + length value + 6 =
      simp length-append (omega arith) in
    (
      record b {
        string = ((((b.string ++ codes "\"") ++ key) ++ codes "\":\"") ++ value) ++ codes "\",";
        position = b.position + 1 + length key + 3 + length value + 2;
        key_state = to_close;
        allocated = b.position + length value + 6 + length key + 1;
      },
      ground arith,
      record {
        string = simp append_assoc;
        position = simp length-append (omega arith);
        key_state = refl;
        kind = refl;
      },
    )

abbrev pub number_field : Bytes → Bytes → Bytes
number_field key text = codes "\"" ++ (key ++ (codes "\":" ++ (text ++ codes ",")))

pub set_number-Adds :
    (b : Builder) (key text : Bytes)
    → b.position + length (number_field key text) < 2 ^ 31
    → (b' : Builder) × (set_number b (some key) text ≡ ok b')
      × Adds b (number_field key text) to_close b'
unfolding set_number put
set_number-Adds b key text small =
    let total : length (number_field key text) ≡ length key + length text + 4 =
      simp length-append (omega arith) in
    (
      record b {
        string = ((((b.string ++ codes "\"") ++ key) ++ codes "\":") ++ text) ++ codes ",";
        position = b.position + 1 + length key + 2 + length text + 1;
        key_state = to_close;
        allocated = b.position + length text + 4 + length key + 1;
      },
      ground arith,
      record {
        string = simp append_assoc;
        position = simp length-append (omega arith);
        key_state = refl;
        kind = refl;
      },
    )

pub set_int-Adds :
    (b : Builder) (key : Bytes) (value : ℤ)
    → b.position + length (number_field key (print_int value)) < 2 ^ 31
    → (b' : Builder) × (pjsonb_set_int b (some key) value ≡ ok b')
      × Adds b (number_field key (print_int value)) to_close b'
unfolding pjsonb_set_int
set_int-Adds b key value small = set_number-Adds b key (print_int value) small

pub enter_object-Adds :
    (b : Builder)
    → b.position + 1 < 2 ^ 31
    → (b' : Builder) × (pjsonb_enter_object b none ≡ ok b') × Adds b (codes "{") nothing b'
unfolding pjsonb_enter_object put
enter_object-Adds b small = (
  record b {
    string = b.string ++ codes "{";
    position = b.position + 1;
    key_state = nothing;
    allocated = b.position + 1;
  },
  ground arith,
  record { string = refl; position = refl; key_state = refl; kind = refl },
)

pub Adds-trans :
    {b b₁ b₂ : Builder} {t₁ t₂ : Bytes} {k₁ k₂ : KeyState}
    → Adds b t₁ k₁ b₁
    → Adds b₁ t₂ k₂ b₂
    → Adds b (t₁ ++ t₂) k₂ b₂
Adds-trans {b} {t₁} {t₂} a₁ a₂ = record {
  string = a₂.string ∙ (ap (λ l. l ++ t₂) a₁.string ∙ append_assoc b.string t₁ t₂);
  position = simp length-append (omega (arith, a₁.position, a₂.position));
  key_state = a₂.key_state;
  kind = a₂.kind ∙ a₁.kind;
}

pub replace_last-append : (s : Bytes) (x c : ℕ) → replace_last (s ++ x ∷ []) c ≡ s ++ c ∷ []
unfolding replace_last
replace_last-append [] x c = refl
replace_last-append (y ∷ []) x c = refl
replace_last-append (y ∷ z ∷ s) x c = ap (λ l. y ∷ l) (replace_last-append (z ∷ s) x c)

-- The comma behind the last field becomes the closing brace.
pub leave_object-Adds :
    {b b₁ : Builder} (t : Bytes)
    → Adds b (t ++ codes ",") to_close b₁
    → b.position + length t + 2 < 2 ^ 31
    → (b₂ : Builder) × (pjsonb_leave_object b₁ ≡ ok b₂) × Adds b (t ++ codes "},") to_close b₂
unfolding pjsonb_leave_object overwrite put
leave_object-Adds {b} {b₁} t a small =
    let at : b₁.position ≡ b.position + length t + 1 =
      a.position ∙ (simp length-append (omega arith)) in
    let last : replace_last b₁.string b'}' ≡ (b.string ++ t) ++ codes "}" =
      ap (λ l. replace_last l b'}') (a.string ∙ sym (append_assoc b.string t (codes ",")))
      ∙ replace_last-append (b.string ++ t) b',' b'}' in
    (
      record b₁ {
        string = replace_last b₁.string b'}' ++ codes ",";
        position = b₁.position + 1;
        key_state = to_close;
        allocated = b₁.position + 1;
      },
      rw a.key_state (ground arith),
      record {
        string = ap (λ l. l ++ codes ",") last ∙ (simp append_assoc);
        position = simp length-append (omega (arith, at));
        key_state = refl;
        kind = a.kind;
      },
    )

-- The end of a text, behind an element.
pub end_full-closing :
    {b b₁ : Builder} (t : Bytes)
    → Adds b (t ++ codes ",") to_close b₁
    → (b₂ : Builder) × (pjsonb_end b₁ ≡ ok b₂)
      × (b₂.string ≡ b.string ++ (t ++ closing b.kind ∷ []))
      × (b₂.position ≡ b.position + length t + 1)
unfolding pjsonb_end overwrite
end_full-closing {b} {b₁} t a =
    let at : b₁.position ≡ b.position + length t + 1 =
      a.position ∙ (simp length-append (omega arith)) in
    let last : replace_last b₁.string (closing b.kind) ≡ (b.string ++ t) ++ closing b.kind ∷ [] =
      ap (λ l. replace_last l (closing b.kind))
        (a.string ∙ sym (append_assoc b.string t (codes ",")))
      ∙ replace_last-append (b.string ++ t) b',' (closing b.kind) in
    (
      record b₁ { string = replace_last b₁.string (closing b.kind) },
      rw (a.key_state, a.kind) (ground arith),
      last ∙ append_assoc b.string t (closing b.kind ∷ []),
      at,
    )

pub end_full-string :
    {b b₁ : Builder} (t : Bytes)
    → Adds b (t ++ codes ",") to_close b₁
    → b.kind ≡ array
    → (b₂ : Builder) × (pjsonb_end b₁ ≡ ok b₂)
      × (b₂.string ≡ b.string ++ (t ++ codes "]"))
      × (b₂.position ≡ b.position + length t + 1)
unfolding closing
end_full-string {b} {b₁} t a is_array =
    let (b₂, e, string, position) = end_full-closing t a in
    (b₂, e, string ∙ ap (λ k. b.string ++ (t ++ closing k ∷ [])) is_array, position)
