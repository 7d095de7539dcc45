-- ===== src/HttpServer/Status.antt =====
-- `_httpserver_get_status_text` of server/libs/httpserver.c.
use Prim.Native.String.{String}
use pal_ft.Base.{ℕ, List, [], ◌∷◌, ◌==◌, if◌then◌else◌}
use pal_ft.Libc.{Bytes, codes}

-- The cases of the switch.
abbrev statuses : List (ℕ × String)
statuses =
    (100, "Continue")
    ∷ (101, "Switching Protocols")
    ∷ (102, "Processing")
    ∷ (103, "Early Hints")
    ∷ (200, "OK")
    ∷ (201, "Created")
    ∷ (202, "Accepted")
    ∷ (203, "Non-Authoratative Information")
    ∷ (204, "No Content")
    ∷ (205, "Reset Content")
    ∷ (206, "Partial Content")
    ∷ (207, "Multi-Status")
    ∷ (208, "Already Reported")
    ∷ (226, "IM Used")
    ∷ (300, "Multiple Choices")
    ∷ (301, "Moved Permanently")
    ∷ (302, "Found")
    ∷ (303, "See Other")
    ∷ (304, "Not Modified")
    ∷ (305, "Use Proxy")
    ∷ (307, "Temporary Redirect")
    ∷ (308, "Permanent Redirect")
    ∷ (400, "Bad request")
    ∷ (401, "Unathorized")
    ∷ (402, "Payment Required")
    ∷ (403, "Forbidden")
    ∷ (404, "Not Found")
    ∷ (405, "Method Not Allowed")
    ∷ (406, "Not Acceptable")
    ∷ (407, "Proxy Authentication Required")
    ∷ (408, "Request Timeout")
    ∷ (409, "Conflict")
    ∷ (410, "Gone")
    ∷ (411, "Length Required")
    ∷ (412, "Precondition Failed")
    ∷ (413, "Payload Too Large")
    ∷ (414, "Request-URI Too Long")
    ∷ (415, "Unsupported Media Type")
    ∷ (416, "Requested Range Not Satisfiable")
    ∷ (417, "Expectation Failed")
    ∷ (418, "I'm a teapot")
    ∷ (421, "Misdirected Request")
    ∷ (422, "Unprocessable Entity")
    ∷ (423, "Locked")
    ∷ (424, "Failed Dependency")
    ∷ (425, "Too Early")
    ∷ (426, "Upgrade Required")
    ∷ (428, "Precondition Required")
    ∷ (429, "Too Many Requests")
    ∷ (431, "Request Header Fields Too Large")
    ∷ (450, "Blocked by Windows Parental Controls")
    ∷ (451, "Unavailable For Legal Reasons")
    ∷ (497, "HTTP Request Sent to HTTPS Port")
    ∷ (498, "Invalid Token")
    ∷ (499, "Client Closed Request")
    ∷ (500, "Internal Server Error")
    ∷ (501, "Not Implemented")
    ∷ (502, "Bad Gateway")
    ∷ (503, "Service Unavailable")
    ∷ (504, "Gateway Timeout")
    ∷ (506, "Variant Also Negotiates")
    ∷ (507, "Insufficient Storage")
    ∷ (508, "Loop Detected")
    ∷ (509, "Bandwidth Limit Exceeded")
    ∷ (510, "Not Extended")
    ∷ (511, "Network Authentication Required")
    ∷ (521, "Web Server Is Down")
    ∷ (522, "Connection Timed Out")
    ∷ (523, "Origin Is Unreachable")
    ∷ (524, "A Timeout Occurred")
    ∷ (525, "SSL Handshake Failed")
    ∷ (530, "Site Frozen")
    ∷ (599, "Network Connect Timeout Error")
    ∷ []

unfoldable pub select : List (ℕ × String) → ℕ → Bytes
select [] status = codes "Unknown"
select ((number, text) ∷ more) status = if number == status then codes text else select more status

unfoldable pub status_text : ℕ → Bytes
unfolding select
status_text = select statuses
