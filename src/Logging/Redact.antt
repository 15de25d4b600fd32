-- ===== src/Logging/Redact.antt =====
-- The redaction of sensitive headers and query parameters.
use epoll_gateway.Base.{
  ℕ, ◌+◌, ◌-◌, ◌*◌, Bool, not, ◌&&◌, List, [], ◌∷◌, ◌++◌, Option, none, some, ◌==◌, is_empty, any,
  within, if◌then◌else◌,
}
use epoll_gateway.Base.Bytes.{Bytes, ascii, eq_bytes, to_lower_bytes, split_at}
use epoll_gateway.Config.Types.{LoggingConfig}

-- `hex_value`; `none` is -1.
unfoldable pub hex_value : ℕ → Option ℕ
hex_value c =
    if within b'0' b'9' c
    then some (c - b'0')
    else if within b'a' b'f' c
    then some (c - b'a' + 10)
    else if within b'A' b'F' c
    then some (c - b'A' + 10)
    else none

-- The loop of `decode_query_name`. Two bytes must follow a percent sign.
unfoldable pub decode_from : Bytes → Bytes
decode_from [] = []
decode_from (c ∷ []) = (if c == b'+' then b' ' else c) ∷ []
decode_from (c ∷ d ∷ []) = (if c == b'+' then b' ' else c) ∷ decode_from (d ∷ [])
decode_from (c ∷ d ∷ e ∷ rest) =
    let plain = decode_from (d ∷ e ∷ rest) in
    let behind = decode_from rest in
    if c == b'+' then b' ' ∷ plain else if not (c == b'%') then c ∷ plain else elim (hex_value d) [
      | none ↦ c ∷ plain
      | some high ↦ elim (hex_value e) [ none ↦ c ∷ plain | some low ↦ (high * 16 + low) ∷ behind ]
    ]

unfoldable pub decode_query_name : Bytes → Bytes
decode_query_name name = to_lower_bytes (decode_from name)

unfoldable pub contains_name : List Bytes → Bytes → Bool
contains_name names name =
    any (λ candidate. eq_bytes (to_lower_bytes candidate) (to_lower_bytes name)) names

abbrev pub redacted : Bytes
redacted = ascii "[redacted]"

unfoldable pub redact_header_value : Bytes → Bytes → LoggingConfig → Bytes
redact_header_value name value config =
    if config.redact_sensitive_headers
      && not (is_empty value)
      && contains_name config.sensitive_headers name
    then redacted
    else value

unfoldable pub redact_api_key : Bytes → Bytes
redact_api_key key = if is_empty key then ascii "anonymous" else redacted

-- One part of the query, up to an ampersand.
unfoldable pub redact_part : LoggingConfig → Bytes → Bytes
redact_part config part = elim (split_at b'=' part) [
  | none ↦ part
  | some (name, value) ↦
      if contains_name config.sensitive_query_params (decode_query_name name)
      then name ++ (b'=' ∷ redacted)
      else part
]

-- The loop over the query; `part` holds what was read of the present part. After an ampersand at the
-- end the loop stops.
unfoldable pub redact_query : LoggingConfig → Bytes → Bytes → Bytes
redact_query config part [] = redact_part config part
redact_query config part (c ∷ rest) =
    let next = redact_query config [] rest in
    let longer = redact_query config (part ++ c ∷ []) rest in
    if c == b'&' then redact_part config part ++ (b'&' ∷ next) else longer

unfoldable pub redact_request_target : Bytes → LoggingConfig → Bytes
redact_request_target target config =
    if not config.redact_sensitive_query_params then target else elim (split_at b'?' target) [
      | none ↦ target
      | some (path, query) ↦ path ++ (b'?' ∷ redact_query config [] query)
    ]

-- The overload on a path and a query.
unfoldable pub redact_path_query : Bytes → Bytes → LoggingConfig → Bytes
redact_path_query path query config =
    redact_request_target (path ++ (if is_empty query then [] else b'?' ∷ query)) config
