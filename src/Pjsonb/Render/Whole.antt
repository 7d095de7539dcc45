-- ===== src/Pjsonb/Render/Whole.antt =====
-- Whole objects that are built with server/libs/pjsonb.c, against their JSON text.
use pal_ft.Base.{
  ◌+◌, ◌^◌, ◌<◌, ◌≤◌, ◌≡◌, refl, sym, ap, ◌∙◌, subst, [], ◌++◌, append_assoc, append-nil, arith,
  length, length-append, ok,
}
use pal_ft.Libc.{Bytes, codes}
use pal_ft.Pjsonb.{
  KeyState, nothing, to_close, Builder, object, put, pjsonb_init, opening, closing,
  pjsonb_leave_object, pjsonb_end,
}
use pal_ft.Pjsonb.Emit.{Adds, Adds-trans, leave_object-Adds, end_full-closing}
use pal_ft.Pjsonb.Render.{Fields, done, field, nested, separator, rendered, build, document}
use pal_ft.Pjsonb.Render.Parts.{field_text, set_field-Adds, enter_key-Adds, leave_empty-Adds}

module _ {F : Type 0} (print_float : F → Bytes) where
  -- The state after fields, from that before them.
  abbrev state_after : KeyState → Fields F → KeyState
  state_after state done = state
  state_after state (field key value fields) = to_close
  state_after state (nested key inner fields) = to_close

  join :
      (t : Bytes) (fields : Fields F)
      → (t ++ codes ",") ++ (rendered print_float fields ++ separator fields)
        ≡ (t ++ (separator fields ++ rendered print_float fields)) ++ codes ","
  join t done = simp (append_assoc, append-nil)
  join t (field key value fields) = simp append_assoc
  join t (nested key inner fields) = simp append_assoc

  join-length :
      (t : Bytes) (fields : Fields F)
      → length ((t ++ (separator fields ++ rendered print_float fields)) ++ codes ",")
        ≡ length (t ++ codes ",") + length (rendered print_float fields ++ separator fields)
  join-length t fields = ap length (sym (join t fields)) ∙ length-append (t ++ codes ",") _

  separator-length : (fields : Fields F) → length (separator fields) ≤ 1
  separator-length done = omega arith
  separator-length (field key value fields) = omega arith
  separator-length (nested key inner fields) = omega arith

  closed_after : (fields : Fields F) → state_after to_close fields ≡ to_close
  closed_after done = refl
  closed_after (field key value fields) = refl
  closed_after (nested key inner fields) = refl

  -- What fields add, behind an element.
  behind :
      {b b₁ b₂ : Builder} (t : Bytes) (fields : Fields F)
      → Adds b (t ++ codes ",") to_close b₁
      → Adds b₁
          (rendered print_float fields ++ separator fields)
          (state_after b₁.key_state fields)
          b₂
      → Adds b ((t ++ (separator fields ++ rendered print_float fields)) ++ codes ",") to_close b₂
  behind {b} {b₁} {b₂} t fields first rest =
      let state = ap (λ k. state_after k fields) first.key_state ∙ closed_after fields in
      subst
        (λ k. Adds b ((t ++ (separator fields ++ rendered print_float fields)) ++ codes ",") k b₂)
        state
        (subst (λ l. Adds b l (state_after b₁.key_state fields) b₂) (join t fields)
          (Adds-trans first rest))

  -- The end of an object that is a field.
  leave-Adds :
      {b b₁ : Builder} (t : Bytes) (fields : Fields F)
      → Adds b
          (t ++ (rendered print_float fields ++ separator fields))
          (state_after nothing fields)
          b₁
      → b.position + length t + length (rendered print_float fields) + 2 < 2 ^ 31
      → (b₂ : Builder) × (pjsonb_leave_object b₁ ≡ ok b₂)
        × Adds b ((t ++ (rendered print_float fields ++ codes "}")) ++ codes ",") to_close b₂
  leave-Adds {b} {b₁} t done a small =
      let (b₂, e, a₂) = leave_empty-Adds (t ++ []) a (omega (arith, small, length-append t [])) in
      (b₂, e, subst (λ l. Adds b l to_close b₂) (simp (append_assoc, append-nil)) a₂)
  leave-Adds {b} {b₁} t (field key value fields) a small =
      let r = rendered print_float (field key value fields) in
      let (b₂, e, a₂) =
        leave_object-Adds (t ++ r)
          (subst (λ l. Adds b l to_close b₁) (sym (append_assoc t r (codes ","))) a)
          (omega (arith, small, length-append t r)) in
      (b₂, e, subst (λ l. Adds b l to_close b₂) (simp append_assoc) a₂)
  leave-Adds {b} {b₁} t (nested key inner fields) a small =
      let r = rendered print_float (nested key inner fields) in
      let (b₂, e, a₂) =
        leave_object-Adds (t ++ r)
          (subst (λ l. Adds b l to_close b₁) (sym (append_assoc t r (codes ","))) a)
          (omega (arith, small, length-append t r)) in
      (b₂, e, subst (λ l. Adds b l to_close b₂) (simp append_assoc) a₂)

  opened-length : (key : Bytes) → length (codes "\"" ++ (key ++ codes "\":{")) ≡ length key + 4
  opened-length key = simp length-append (omega arith)

  nested_room :
      (b : Builder) (key : Bytes) (inner fields : Fields F)
      → b.position
          + length (
              rendered print_float (nested key inner fields) ++ separator (nested key inner fields))
        < 2 ^ 31
      → b.position
          + (length key + length (rendered print_float inner) + 6)
          + length (rendered print_float fields ++ separator fields)
        < 2 ^ 31
  nested_room b key inner fields small =
      let whole =
        codes "\"" ++ (key ++ (codes "\":{" ++ (rendered print_float inner ++ codes "}"))) in
      let size : length (whole ++ codes ",")
          ≡ length key + length (rendered print_float inner) + 6 =
        simp length-append (omega arith) in
      omega (arith, small, size, join-length whole fields)

  build-Adds :
      (b : Builder) (fields : Fields F)
      → b.position + length (rendered print_float fields ++ separator fields) < 2 ^ 31
      → (b' : Builder) × (build print_float b fields ≡ ok b')
        × Adds b
            (rendered print_float fields ++ separator fields)
            (state_after b.key_state fields)
            b'
  build-Adds b done small = (
    b,
    refl,
    record {
      string = sym (append-nil b.string);
      position = omega arith;
      key_state = refl;
      kind = refl;
    },
  )
  build-Adds b (field key value fields) small =
      let (b₁, e₁, a₁) =
        set_field-Adds print_float b key value
          (omega (arith, small, join-length (field_text print_float key value) fields)) in
      let (b₂, e₂, a₂) = build-Adds b₁ fields (
        omega (arith, small, a₁.position, join-length (field_text print_float key value) fields)) in
      (b₂, rw e₁ e₂, behind {b₁ = b₁} {b₂ = b₂} (field_text print_float key value) fields a₁ a₂)
  build-Adds b (nested key inner fields) small =
      let whole =
        codes "\"" ++ (key ++ (codes "\":{" ++ (rendered print_float inner ++ codes "}"))) in
      let room : b.position
            + (length key + length (rendered print_float inner) + 6)
            + length (rendered print_float fields ++ separator fields)
          < 2 ^ 31 =
        nested_room b key inner fields small in
      let (b₁, e₁, a₁) = enter_key-Adds b key (omega (arith, room, opened-length key)) in
      let (b₂, e₂, a₂) = build-Adds b₁ inner (
        omega (
          arith,
          room,
          opened-length key,
          a₁.position,
          separator-length inner,
          length-append (rendered print_float inner) (separator inner),
        )) in
      let opened = codes "\"" ++ (key ++ codes "\":{") in
      let inside : Adds b (opened ++ (rendered print_float inner ++ separator inner))
          (state_after nothing inner) b₂ =
        subst
          (λ k.
            Adds b (opened ++ (rendered print_float inner ++ separator inner)) (state_after k inner)
              b₂)
          a₁.key_state (Adds-trans {b₁ = b₁} {b₂ = b₂} a₁ a₂) in
      let (b₃, e₃, a₃) =
        leave-Adds {b₁ = b₂} opened inner inside (omega (arith, room, opened-length key)) in
      let (b₄, e₄, a₄) = build-Adds b₃ fields (
        omega (
          arith,
          room,
          opened-length key,
          a₃.position,
          ap length (append_assoc opened (rendered print_float inner) (codes "}")),
          length-append opened (rendered print_float inner),
          length-append (opened ++ (rendered print_float inner ++ codes "}")) (codes ","),
          length-append opened (rendered print_float inner ++ codes "}"),
          length-append (rendered print_float inner) (codes "}"),
        )) in
      (
        b₄,
        rw (e₁, e₂, e₃) e₄,
        behind {b₁ = b₃} {b₂ = b₄} whole fields
            (subst (λ l. Adds b l to_close b₃) (simp append_assoc) a₃) a₄,
      )

  closed_document :
      (fields : Fields F)
      → separator fields ≡ codes ","
      → state_after nothing fields ≡ to_close
      → length (rendered print_float fields) + 2 < 2 ^ 31
      → (b : Builder) × (document print_float fields ≡ ok b)
        × (b.string ≡ codes "{" ++ (rendered print_float fields ++ codes "}"))
        × (b.position ≡ length (rendered print_float fields) + 2)
  unfolding pjsonb_init closing opening
  closed_document fields some_field state small =
      let (b₁, e₁, a) = build-Adds (pjsonb_init object) fields (
        omega (
          arith,
          small,
          ap length some_field,
          length-append (rendered print_float fields) (separator fields),
        )) in
      let full : Adds (pjsonb_init object) (rendered print_float fields ++ codes ",") to_close b₁ =
        subst (λ k. Adds (pjsonb_init object) (rendered print_float fields ++ codes ",") k b₁) state
          (subst
            (λ l.
              Adds (pjsonb_init object) (rendered print_float fields ++ l)
                (state_after nothing fields) b₁)
            some_field a) in
      let (b₂, e₂, string, position) = end_full-closing (rendered print_float fields) full in
      (b₂, rw e₁ e₂, string, omega (arith, position))

  empty_document :
      (b : Builder) × (document print_float done ≡ ok b)
      × (b.string ≡ codes "{}")
      × (b.position ≡ 2)
  unfolding pjsonb_init pjsonb_end put closing
  empty_document = (
    record { string = codes "{}"; position = 2; key_state = nothing; kind = object; allocated = 2 },
    refl,
    refl,
    refl,
  )

  -- For any fields of an object, whose values are strings, numbers, truth values and objects, at
  -- any depth, and whose text with its braces has fewer than 2 ^ 31 bytes, the calls of the
  -- builder from `pjsonb_init` to `pjsonb_end` return, with no write outside the memory that was
  -- asked for and no overflow of the position, and the text is the fields with commas between
  -- them, in braces, and as long as the position says.
  pub document-rendered :
      (fields : Fields F)
      → length (rendered print_float fields) + 2 < 2 ^ 31
      → (b : Builder) × (document print_float fields ≡ ok b)
        × (b.string ≡ codes "{" ++ (rendered print_float fields ++ codes "}"))
        × (b.position ≡ length (rendered print_float fields) + 2)
  document-rendered done small = empty_document
  document-rendered (field key value fields) small =
      closed_document (field key value fields) refl refl small
  document-rendered (nested key inner fields) small =
      closed_document (nested key inner fields) refl refl small
