-- ===== src/Pjsonb/Render/Parts.antt =====
-- The parts of an object that is built with server/libs/pjsonb.c.
use pal_ft.Base.{
  ◌+◌, ◌^◌, ◌<◌, ◌≡◌, refl, ap, ◌∙◌, subst, Bool, true, false, some, ◌++◌, append_assoc, arith,
  length, length-append, ok,
}
use pal_ft.Libc.{Bytes, codes, print_int, decimal}
use pal_ft.Pjsonb.{
  nothing, to_close, Builder, put, set_number, pjsonb_set_int, pjsonb_set_size_t, pjsonb_set_bool,
  pjsonb_set_float, bool_text, pjsonb_enter_object, pjsonb_leave_object,
}
use pal_ft.Pjsonb.Emit.{Adds, number_field, string_field, set_string-Adds, set_number-Adds}
use pal_ft.Pjsonb.Render.{Scalar, text, int, size_t, bool, float, scalar_text, set_field}

module _ {F : Type 0} (print_float : F → Bytes) where
  abbrev pub field_text : Bytes → Scalar F → Bytes
  field_text key value = codes "\"" ++ (key ++ (codes "\":" ++ scalar_text print_float value))

  set_bool-set_number :
      (b : Builder) (key : Bytes) (value : Bool)
      → pjsonb_set_bool b (some key) value
        ≡ set_number b (some key) (scalar_text print_float (bool value))
  unfolding pjsonb_set_bool set_number bool_text
  set_bool-set_number b key true = refl
  set_bool-set_number b key false = refl

  number_text :
      {b b' : Builder} (key value : Bytes)
      → Adds b (number_field key value) to_close b'
      → Adds b ((codes "\"" ++ (key ++ (codes "\":" ++ value))) ++ codes ",") to_close b'
  number_text {b} {b'} key value a = subst (λ t. Adds b t to_close b') (simp append_assoc) a

  number_room :
      (b : Builder) (key value : Bytes)
      → b.position + length ((codes "\"" ++ (key ++ (codes "\":" ++ value))) ++ codes ",") < 2 ^ 31
      → b.position + length (number_field key value) < 2 ^ 31
  number_room b key value small =
      let total : length (number_field key value) ≡ length key + length value + 4 =
        simp length-append (omega arith) in
      let room : length ((codes "\"" ++ (key ++ (codes "\":" ++ value))) ++ codes ",")
          ≡ length key + length value + 4 =
        simp length-append (omega arith) in
      omega (arith, small, total, room)

  pub set_field-Adds :
      (b : Builder) (key : Bytes) (value : Scalar F)
      → b.position + length (field_text key value ++ codes ",") < 2 ^ 31
      → (b' : Builder) × (set_field print_float b key value ≡ ok b')
        × Adds b (field_text key value ++ codes ",") to_close b'
  unfolding pjsonb_set_int pjsonb_set_size_t pjsonb_set_float
  set_field-Adds b key (text value) small =
      let total : length (string_field key value) ≡ length key + length value + 6 =
        simp length-append (omega arith) in
      let room : length (field_text key (text value) ++ codes ",") ≡ length key + length value + 6 =
        simp length-append (omega arith) in
      let (b', e, a) = set_string-Adds b key value (omega (arith, small, total, room)) in
      (b', e, subst (λ t. Adds b t to_close b') (simp append_assoc) a)
  set_field-Adds b key (int value) small =
      let (b', e, a) =
        set_number-Adds b key (print_int value) (number_room b key (print_int value) small) in
      (b', e, number_text key (print_int value) a)
  set_field-Adds b key (size_t value) small =
      let (b', e, a) =
        set_number-Adds b key (decimal value) (number_room b key (decimal value) small) in
      (b', e, number_text key (decimal value) a)
  set_field-Adds b key (bool value) small =
      let (b', e, a) =
        set_number-Adds b key (scalar_text print_float (bool value))
          (number_room b key (scalar_text print_float (bool value)) small) in
      (
        b',
        set_bool-set_number b key value ∙ e,
        number_text key (scalar_text print_float (bool value)) a,
      )
  set_field-Adds b key (float value) small =
      let (b', e, a) =
        set_number-Adds b key (print_float value) (number_room b key (print_float value) small) in
      (b', e, number_text key (print_float value) a)

pub enter_key-Adds :
    (b : Builder) (key : Bytes)
    → b.position + length (codes "\"" ++ (key ++ codes "\":{")) < 2 ^ 31
    → (b' : Builder) × (pjsonb_enter_object b (some key) ≡ ok b')
      × Adds b (codes "\"" ++ (key ++ codes "\":{")) nothing b'
unfolding pjsonb_enter_object put
enter_key-Adds b key small =
    let total : length (codes "\"" ++ (key ++ codes "\":{")) ≡ length key + 4 =
      simp length-append (omega arith) in
    (
      record b {
        string = ((b.string ++ codes "\"") ++ key) ++ codes "\":{";
        position = b.position + 1 + length key + 3;
        key_state = nothing;
        allocated = b.position + 5 + length key;
      },
      ground arith,
      record {
        string = simp append_assoc;
        position = simp length-append (omega arith);
        key_state = refl;
        kind = refl;
      },
    )

-- The end of an object with no field.
pub leave_empty-Adds :
    {b b₁ : Builder} (t : Bytes)
    → Adds b t nothing b₁
    → b.position + length t + 2 < 2 ^ 31
    → (b₂ : Builder) × (pjsonb_leave_object b₁ ≡ ok b₂) × Adds b (t ++ codes "},") to_close b₂
unfolding pjsonb_leave_object put
leave_empty-Adds {b} {b₁} t a small =
    let at = a.position in
    (
      record b₁ {
        string = b₁.string ++ codes "},";
        position = b₁.position + 2;
        key_state = to_close;
        allocated = b₁.position + 2 + 1;
      },
      rw a.key_state (ground arith),
      record {
        string = ap (λ l. l ++ codes "},") a.string ∙ append_assoc b.string t (codes "},");
        position = simp length-append (omega (arith, a.position));
        key_state = refl;
        kind = a.kind;
      },
    )
