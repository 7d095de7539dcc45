-- ===== src/Pjsonb/Render.antt =====
-- Whole objects that are built with server/libs/pjsonb.c, and their JSON text.
pub mod Parts
pub mod Whole
use pal_ft.Base.{
  ℕ, ◌+◌, ◌≡◌, refl, sym, ap, ◌∙◌, subst, Bool, true, false, none, some, [], ◌∷◌, ◌++◌,
  append_assoc, append-nil, arith, if◌then◌else◌, length, length-append, Outcome, ok, ◌>>=◌,
}
use pal_ft.Libc.{Bytes, codes, ℤ, print_int, decimal}
use pal_ft.Pjsonb.{
  KeyState, nothing, to_close, Builder, Kind, object, put, set_number, pjsonb_init, opening,
  pjsonb_set_int, pjsonb_set_size_t, pjsonb_set_bool, pjsonb_set_float, bool_text,
  pjsonb_set_string, closing, pjsonb_enter_object, pjsonb_leave_object, pjsonb_end, overwrite,
  replace_last,
}
use pal_ft.Pjsonb.Emit.{
  Adds, Adds-trans, string_field, number_field, set_string-Adds, set_number-Adds, set_int-Adds,
  leave_object-Adds, end_full-closing, replace_last-append,
}

-- A value with no parts; `F` are the floats.
pub data Scalar (F : Type 0) : Type 0 where
  text : Bytes → Scalar F
  int : ℤ → Scalar F
  size_t : ℕ → Scalar F
  bool : Bool → Scalar F
  float : F → Scalar F

-- The fields of an object, each with its key.
pub data Fields (F : Type 0) : Type 0 where
  done : Fields F
  field : Bytes → Scalar F → Fields F → Fields F
  nested : Bytes → Fields F → Fields F → Fields F

abbrev pub separator : {F : Type 0} → Fields F → Bytes
separator done = []
separator (field key value fields) = codes ","
separator (nested key inner fields) = codes ","

module _ {F : Type 0} (print_float : F → Bytes) where
  abbrev pub scalar_text : Scalar F → Bytes
  scalar_text (text value) = codes "\"" ++ (value ++ codes "\"")
  scalar_text (int value) = print_int value
  scalar_text (size_t value) = decimal value
  scalar_text (bool value) = if value then codes "true" else codes "false"
  scalar_text (float value) = print_float value

  -- The fields with commas between them.
  abbrev pub rendered : Fields F → Bytes
  rendered done = []
  rendered (field key value fields) =
      (codes "\"" ++ (key ++ (codes "\":" ++ scalar_text value)))
      ++ (separator fields ++ rendered fields)
  rendered (nested key inner fields) =
      (codes "\"" ++ (key ++ (codes "\":{" ++ (rendered inner ++ codes "}"))))
      ++ (separator fields ++ rendered fields)

  abbrev pub set_field : Builder → Bytes → Scalar F → Outcome Builder
  set_field b key (text value) = pjsonb_set_string b (some key) value
  set_field b key (int value) = pjsonb_set_int b (some key) value
  set_field b key (size_t value) = pjsonb_set_size_t b (some key) value
  set_field b key (bool value) = pjsonb_set_bool b (some key) value
  set_field b key (float value) = pjsonb_set_float print_float b (some key) value

  -- The calls for the fields, in order.
  abbrev pub build : Builder → Fields F → Outcome Builder
  build b done = ok b
  build b (field key value fields) = do b' ← set_field b key value; build b' fields
  build b (nested key inner fields) = do
    b₁ ← pjsonb_enter_object b (some key)
    b₂ ← build b₁ inner
    b₃ ← pjsonb_leave_object b₂
    build b₃ fields

  -- All the calls for an object.
  abbrev pub document : Fields F → Outcome Builder
  document fields = do b ← build (pjsonb_init object) fields; pjsonb_end b
