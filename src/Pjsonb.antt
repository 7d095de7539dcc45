-- ===== src/Pjsonb.antt =====
-- server/libs/pjsonb.c: the builder of a JSON text. `string` holds the bytes below `position`;
-- nothing reads those from there on. `position` is an `int`: that it passes 2 ^ 31 - 1 or falls
-- below 0 is a fault, so it is kept as a ℕ. `allocated` is the size that the last `realloc` asked
-- for, and a write past it is a fault. A key that is NULL is `none`.
pub mod Emit
pub mod Render
use pal_ft.Base.{
  ℕ, ◌+◌, ◌-◌, ◌^◌, Bool, true, false, Option, none, some, [], ◌∷◌, ◌++◌, leb, ltb, ◌==◌,
  if◌then◌else◌, length, take, Outcome, ok, fault, ◌>>=◌,
}
use pal_ft.Libc.{Bytes, codes, ℤ, pos, negsuc, wrap_int, print_int, decimal}

-- enum pjsonb_key_state
pub data KeyState : Type 0 where
  nothing to_close : KeyState

-- enum pjsonb_type
pub data Kind : Type 0 where
  array object : Kind

-- struct pjsonb
pub record Builder : Type 0 where
  pub string : Bytes
  pub position : ℕ
  pub key_state : KeyState
  pub kind : Kind
  pub allocated : ℕ

opening : Kind → ℕ
opening array = b'['
opening object = b'{'

unfoldable pub closing : Kind → ℕ
closing array = b']'
closing object = b'}'

unfoldable pub pjsonb_init : Kind → Builder
unfolding opening
pjsonb_init kind = record {
  string = opening kind ∷ [];
  position = 1;
  key_state = nothing;
  kind = kind;
  allocated = 1;
}

-- `builder->string = realloc(builder->string, size)`
abbrev pub realloc : Builder → ℕ → Builder
realloc b size = record b { allocated = size }

-- `position += (int)length` for a length that takes it past the last `int`. The cast keeps the low
-- 32 bits. A sum below 0 is followed by a write there, which is outside the memory.
unfoldable pub move_far : Builder → Bytes → Outcome Builder
move_far b text = elim (wrap_int (length text)) [
  | pos k ↦
      if ltb (b.position + k) (2 ^ 31)
      then ok (record b { string = b.string ++ take k text; position = b.position + k })
      else fault
  | negsuc k ↦
      if ltb k b.position
      then ok (record b {
        string = take (b.position - (k + 1)) b.string;
        position = b.position - (k + 1);
      })
      else fault
]

-- A write at `position`, which then moves by its length.
unfoldable pub put : Builder → Bytes → Outcome Builder
put b text =
    if leb (b.position + length text) b.allocated
    then if ltb (b.position + length text) (2 ^ 31)
      then ok (record b { string = b.string ++ text; position = b.position + length text })
      else move_far b text
    else fault

-- A write at `position`, which stays.
unfoldable pub poke : Builder → Bytes → Outcome Builder
poke b text = if leb (b.position + length text) b.allocated then ok b else fault

unfoldable pub replace_last : Bytes → ℕ → Bytes
replace_last [] c = []
replace_last (x ∷ []) c = c ∷ []
replace_last (x ∷ y ∷ s) c = x ∷ replace_last (y ∷ s) c

-- `builder->string[builder->position - 1] = c`
unfoldable pub overwrite : Builder → ℕ → Outcome Builder
unfolding replace_last
overwrite b c =
    if b.position == 0 then fault else ok (record b { string = replace_last b.string c })

unfoldable pub pjsonb_end : Builder → Outcome Builder
unfolding closing
pjsonb_end b = elim b.key_state [
  | to_close ↦ overwrite b (closing b.kind)
  | nothing ↦ put (realloc b (b.position + 1)) (closing b.kind ∷ [])
]

abbrev closed : Builder → Builder
closed b = record b { key_state = to_close }

-- `pjsonb_set_int`, `pjsonb_set_size_t` and `pjsonb_set_float`, for the text that `snprintf` gives. Without a key the
-- comma is written and the position is not moved past it.
unfoldable pub set_number : Builder → Option Bytes → Bytes → Outcome Builder
set_number b none text = do
  b₁ ← put (realloc b (b.position + length text + 1)) text
  b₂ ← poke b₁ (codes ",")
  ok (closed b₂)
set_number b (some key) text = do
  b₁ ← put (realloc b (b.position + length text + 4 + length key + 1)) (codes "\"")
  b₂ ← put b₁ key
  b₃ ← put b₂ (codes "\":")
  b₄ ← put b₃ text
  b₅ ← put b₄ (codes ",")
  ok (closed b₅)

unfoldable pub pjsonb_set_int : Builder → Option Bytes → ℤ → Outcome Builder
pjsonb_set_int b key value = set_number b key (print_int value)

unfoldable pub pjsonb_set_size_t : Builder → Option Bytes → ℕ → Outcome Builder
pjsonb_set_size_t b key value = set_number b key (decimal value)

-- `print` gives what `snprintf` makes of "%f".
unfoldable pub pjsonb_set_float :
    {F : Type 0} → (F → Bytes) → Builder → Option Bytes → F → Outcome Builder
pjsonb_set_float print b key value = set_number b key (print value)

unfoldable pub bool_text : Bool → Bytes
bool_text true = codes "true"
bool_text false = codes "false"

unfoldable pub pjsonb_set_bool : Builder → Option Bytes → Bool → Outcome Builder
unfolding bool_text
pjsonb_set_bool b none value = do
  b₁ ← put (realloc b (b.position + length (bool_text value) + 1)) (bool_text value)
  b₂ ← put b₁ (codes ",")
  ok (closed b₂)
pjsonb_set_bool b (some key) value = do
  b₁ ← put (realloc b (b.position + length (bool_text value) + 4 + length key + 1)) (codes "\"")
  b₂ ← put b₁ key
  b₃ ← put b₂ (codes "\":")
  b₄ ← put b₃ (bool_text value)
  b₅ ← put b₄ (codes ",")
  ok (closed b₅)

-- Every caller passes `strlen(value)` for the length.
unfoldable pub pjsonb_set_string : Builder → Option Bytes → Bytes → Outcome Builder
pjsonb_set_string b none value = do
  b₁ ← put (realloc b (b.position + length value + 3)) (codes "\"")
  b₂ ← put b₁ value
  b₃ ← put b₂ (codes "\",")
  ok (closed b₃)
pjsonb_set_string b (some key) value = do
  b₁ ← put (realloc b (b.position + length value + 6 + length key + 1)) (codes "\"")
  b₂ ← put b₁ key
  b₃ ← put b₂ (codes "\":\"")
  b₄ ← put b₃ value
  b₅ ← put b₄ (codes "\",")
  ok (closed b₅)

abbrev fresh : Builder → Builder
fresh b = record b { key_state = nothing }

unfoldable pub pjsonb_enter_object : Builder → Option Bytes → Outcome Builder
pjsonb_enter_object b none = do b₁ ← put (realloc b (b.position + 1)) (codes "{"); ok (fresh b₁)
pjsonb_enter_object b (some key) = do
  b₁ ← put (realloc b (b.position + 5 + length key)) (codes "\"")
  b₂ ← put b₁ key
  b₃ ← put b₂ (codes "\":{")
  ok (fresh b₃)

unfoldable pub pjsonb_leave_object : Builder → Outcome Builder
pjsonb_leave_object b = elim b.key_state [
  | to_close ↦ do
    b₁ ← overwrite b b'}'
    b₂ ← put (realloc b₁ (b₁.position + 1)) (codes ",")
    ok (closed b₂)
  | nothing ↦ do b₁ ← put (realloc b (b.position + 2 + 1)) (codes "},"); ok (closed b₁)
]

unfoldable pub pjsonb_enter_array : Builder → Option Bytes → Outcome Builder
pjsonb_enter_array b none = do b₁ ← put (realloc b (b.position + 1)) (codes "["); ok (fresh b₁)
pjsonb_enter_array b (some key) = do
  b₁ ← put (realloc b (b.position + 4 + length key)) (codes "\"")
  b₂ ← put b₁ key
  b₃ ← put b₂ (codes "\":[")
  ok (fresh b₃)

unfoldable pub pjsonb_leave_array : Builder → Outcome Builder
pjsonb_leave_array b = elim b.key_state [
  | to_close ↦ do b₁ ← overwrite b b']'; ok (fresh b₁)
  | nothing ↦ put (realloc b (b.position + 1)) (codes "]")
]
