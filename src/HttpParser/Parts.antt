-- ===== src/HttpParser/Parts.antt =====
-- server/libs/httpparser.c: the request, its method, its headers, and the copies out of the buffer.
use pal_ft.Base.{
  ℕ, ◌+◌, ◌-◌, Option, none, some, Bool, false, ◌&&◌, ◌||◌, List, [], ◌∷◌, map, ltb, leb, ◌==◌,
  if◌then◌else◌, length, take, drop, Outcome, ok, fault, ◌>>=◌,
}
use pal_ft.HttpServer.{Header}
use pal_ft.Libc.{Bytes, codes, str_eq, ℤ}
use pal_ft.Libtstr.{Token, tstr_find_between}

-- struct httpparser_request
pub record Request : Type 0 where
  pub method : Bytes
  pub path : Option Bytes
  pub version : Bytes
  pub headers : List Header
  pub headers_max_length : ℕ
  pub body : Option Bytes
  pub chunk_length : Option ℤ
  pub finished : Option Bool

unfoldable pub httpparser_init_request : ℕ → Request
httpparser_init_request length = record {
  method = [];
  path = none;
  version = [];
  headers = [];
  headers_max_length = length;
  body = none;
  chunk_length = none;
  finished = none;
}

abbrev pub methods : List Bytes
methods =
    codes "GET"
    ∷ codes "HEAD"
    ∷ codes "POST"
    ∷ codes "PUT"
    ∷ codes "DELETE"
    ∷ codes "CONNECT"
    ∷ codes "OPTIONS"
    ∷ codes "TRACE"
    ∷ codes "PATCH"
    ∷ []

abbrev pub among : Bytes → List Bytes → Bool
among text [] = false
among text (t ∷ texts) = str_eq text t || among text texts

-- `_httpparser_check_method(method) != -1`
unfoldable pub check_method : Bytes → Bool
check_method method = among method methods

-- `tolower` in the C locale
unfoldable pub to_lower : ℕ → ℕ
to_lower c = if leb b'A' c && leb c b'Z' then c + 32 else c

unfoldable pub to_lower_case : Bytes → Bytes
unfolding to_lower
to_lower_case = map to_lower

-- The C string that begins at the front of the bytes.
unfoldable pub c_text : Bytes → Bytes
c_text [] = []
c_text (c ∷ s) = if c == 0 then [] else c ∷ c_text s

-- The bytes from one index of the buffer up to another.
unfoldable pub slice : Bytes → ℕ → ℕ → Outcome Bytes
slice buffer from to =
    if leb from to && leb to (length buffer)
    then ok (take (to - from) (drop from buffer))
    else fault

-- `memcpy` of them into an array of `size` bytes, and the terminator behind them.
unfoldable pub copy : ℕ → Bytes → ℕ → ℕ → Outcome Bytes
copy size buffer from to = do
  bytes ← slice buffer from to
  if ltb (to - from) size then ok (c_text bytes) else fault

abbrev pub find : Bytes → ℕ → Bytes → ℕ → Outcome Token
find buffer from pattern len = tstr_find_between buffer none from (some pattern) len

abbrev pub line_end : Bytes
line_end = 13 ∷ 10 ∷ []

abbrev pub blank_line : Bytes
blank_line = 13 ∷ 10 ∷ 13 ∷ 10 ∷ []

-- `httpparser_get_header`, for its value
unfoldable pub httpparser_get_header : List Header → Bytes → Option Bytes
httpparser_get_header [] key = none
httpparser_get_header ((k, value) ∷ headers) key =
    if str_eq k key then some value else httpparser_get_header headers key
