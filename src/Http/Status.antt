-- ===== src/Http/Status.antt =====
-- include/klib/detail/http-inl.h and include/klib/http.h: the codes of statuses and methods, and
-- their names. `#string` joins the tokens of a name by single spaces.
use klib.Base.{ℕ, List, [], ◌∷◌, Bytes, codes, ◌==◌, if◌then◌else◌}

-- `KLIB_HTTP_STATUS_MAP`
abbrev pub status_map : List (ℕ × Bytes)
status_map =
    (100, codes "Continue")
    ∷ (101, codes "Switching Protocols")
    ∷ (102, codes "Processing")
    ∷ (200, codes "OK")
    ∷ (201, codes "Created")
    ∷ (202, codes "Accepted")
    ∷ (203, codes "Non - Authoritative Information")
    ∷ (204, codes "No Content")
    ∷ (205, codes "Reset Content")
    ∷ (206, codes "Partial Content")
    ∷ (207, codes "Multi - Status")
    ∷ (208, codes "Already Reported")
    ∷ (226, codes "IM Used")
    ∷ (300, codes "Multiple Choices")
    ∷ (301, codes "Moved Permanently")
    ∷ (302, codes "Found")
    ∷ (303, codes "See Other")
    ∷ (304, codes "Not Modified")
    ∷ (305, codes "Use Proxy")
    ∷ (307, codes "Temporary Redirect")
    ∷ (308, codes "Permanent Redirect")
    ∷ (400, codes "Bad Request")
    ∷ (401, codes "Unauthorized")
    ∷ (402, codes "Payment Required")
    ∷ (403, codes "Forbidden")
    ∷ (404, codes "Not Found")
    ∷ (405, codes "Method Not Allowed")
    ∷ (406, codes "Not Acceptable")
    ∷ (407, codes "Proxy Authentication Required")
    ∷ (408, codes "Request Timeout")
    ∷ (409, codes "Conflict")
    ∷ (410, codes "Gone")
    ∷ (411, codes "Length Required")
    ∷ (412, codes "Precondition Failed")
    ∷ (413, codes "Payload Too Large")
    ∷ (414, codes "URI Too Long")
    ∷ (415, codes "Unsupported Media Type")
    ∷ (416, codes "Range Not Satisfiable")
    ∷ (417, codes "Expectation Failed")
    ∷ (421, codes "Misdirected Request")
    ∷ (422, codes "Unprocessable Entity")
    ∷ (423, codes "Locked")
    ∷ (424, codes "Failed Dependency")
    ∷ (426, codes "Upgrade Required")
    ∷ (428, codes "Precondition Required")
    ∷ (429, codes "Too Many Requests")
    ∷ (431, codes "Request Header Fields Too Large")
    ∷ (451, codes "Unavailable For Legal Reasons")
    ∷ (500, codes "Internal Server Error")
    ∷ (501, codes "Not Implemented")
    ∷ (502, codes "Bad Gateway")
    ∷ (503, codes "Service Unavailable")
    ∷ (504, codes "Gateway Timeout")
    ∷ (505, codes "HTTP Version Not Supported")
    ∷ (506, codes "Variant Also Negotiates")
    ∷ (507, codes "Insufficient Storage")
    ∷ (508, codes "Loop Detected")
    ∷ (510, codes "Not Extended")
    ∷ (511, codes "Network Authentication Required")
    ∷ []

-- `KLIB_HTTP_METHOD_MAP`
abbrev pub method_map : List (ℕ × Bytes)
method_map =
    (0, codes "DELETE")
    ∷ (1, codes "GET")
    ∷ (2, codes "HEAD")
    ∷ (3, codes "POST")
    ∷ (4, codes "PUT")
    ∷ (5, codes "CONNECT")
    ∷ (6, codes "OPTIONS")
    ∷ (7, codes "TRACE")
    ∷ (8, codes "COPY")
    ∷ (9, codes "LOCK")
    ∷ (10, codes "MKCOL")
    ∷ (11, codes "MOVE")
    ∷ (12, codes "PROPFIND")
    ∷ (13, codes "PROPPATCH")
    ∷ (14, codes "SEARCH")
    ∷ (15, codes "UNLOCK")
    ∷ (16, codes "BIND")
    ∷ (17, codes "REBIND")
    ∷ (18, codes "UNBIND")
    ∷ (19, codes "ACL")
    ∷ (20, codes "REPORT")
    ∷ (21, codes "MKACTIVITY")
    ∷ (22, codes "CHECKOUT")
    ∷ (23, codes "MERGE")
    ∷ (24, codes "M - SEARCH")
    ∷ (25, codes "NOTIFY")
    ∷ (26, codes "SUBSCRIBE")
    ∷ (27, codes "UNSUBSCRIBE")
    ∷ (28, codes "PATCH")
    ∷ (29, codes "PURGE")
    ∷ (30, codes "MKCALENDAR")
    ∷ (31, codes "LINK")
    ∷ (32, codes "UNLINK")
    ∷ (33, codes "SOURCE")
    ∷ []

-- The `switch`: the name in the entry of the code, or the default.
unfoldable pub name_of : Bytes → ℕ → List (ℕ × Bytes) → Bytes
name_of default code [] = default
name_of default code ((c, name) ∷ entries) =
    let rest = name_of default code entries in if code == c then name else rest

unfoldable pub http_status_str : ℕ → Bytes
unfolding name_of
http_status_str status = name_of (codes "Unknown HTTP status") status status_map

unfoldable pub http_method_str : ℕ → Bytes
unfolding name_of
http_method_str method = name_of (codes "Unknown Http method") method method_map
